-- ===== src/Entropy/Frames.antt =====
-- Reseed requests: what is written is read back, and nothing else is read as a request.
use setec.Prelude.{ℕ, ◌≤◌, ◌<◌, ◌≡◌, some, List, ◌∷◌, ◌++◌, length, arith}
use setec.Wire.{read_full, u16}
use setec.Wire.Laws.{IsBytes, read_full-append, read_full-eq_some, u16-put_u16, put_u16-u16}
use setec.Entropy.{write_request, read_request, request_bytes, max_payload_bytes}

sized :
    (payload w : List ℕ)
    → write_request payload ≡ some w
    → (w ≡ request_bytes payload) × (0 < length payload) × (length payload ≤ max_payload_bytes)
unfolding write_request
sized payload w h = ground arith

read_request-request_bytes :
    (payload rest : List ℕ)
    → 0 < length payload
    → length payload ≤ max_payload_bytes
    → read_request (request_bytes payload ++ rest) ≡ some (payload, rest)
unfolding read_request read_full request_bytes
read_request-request_bytes payload rest p q =
    rw (u16-put_u16 (length payload) (omega arith)) (ground (arith, read_full-append payload rest))

-- A request that was written is read back, whatever follows it on the stream.
pub read_request-write_request :
    (payload w rest : List ℕ)
    → write_request payload ≡ some w
    → read_request (w ++ rest) ≡ some (payload, rest)
read_request-write_request payload w rest h =
    let (e, p, q) = sized payload w h in rw e (read_request-request_bytes payload rest p q)

request_ok :
    (a b c d v l0 l1 : ℕ) (r payload rest : List ℕ)
    → read_request (a ∷ b ∷ c ∷ d ∷ v ∷ l0 ∷ l1 ∷ r) ≡ some (payload, rest)
    → ((a ≡ b'S') × (b ≡ b'R') × (c ≡ b'S') × (d ≡ b'D') × (v ≡ 1))
      × ((0 < u16 l0 l1) × (u16 l0 l1 ≤ max_payload_bytes))
      × (read_full (u16 l0 l1) r ≡ some (payload, rest))
unfolding read_request read_full
request_ok a b c d v l0 l1 r payload rest h = ground arith

write_request-ok :
    (payload : List ℕ)
    → 0 < length payload
    → length payload ≤ max_payload_bytes
    → write_request payload ≡ some (request_bytes payload)
unfolding write_request
write_request-ok payload p q = ground arith

request_from :
    (l0 l1 : ℕ) (payload rest : List ℕ)
    → l0 < 256
    → l1 < 256
    → length payload ≡ u16 l0 l1
    → request_bytes payload ++ rest ≡ b'S' ∷ b'R' ∷ b'S' ∷ b'D' ∷ 1 ∷ l0 ∷ l1 ∷ (payload ++ rest)
unfolding request_bytes
request_from l0 l1 payload rest p q e = rw e (cc (put_u16-u16 l0 l1 p q))

-- Nothing but a written request is read as one: the stream starts with what `write_request` makes of
-- the payload that was read.
pub read_request-eq_some :
    (r payload rest : List ℕ)
    → IsBytes r
    → read_request r ≡ some (payload, rest)
    → (w : List ℕ) × (write_request payload ≡ some w) × (r ≡ w ++ rest)
unfolding read_request read_full
read_request-eq_some (a ∷ b ∷ c ∷ d ∷ v ∷ l0 ∷ l1 ∷ r') payload rest bytes h =
    let (start, size, read) = request_ok a b c d v l0 l1 r' payload rest h in
    let (split, len) = read_full-eq_some (u16 l0 l1) r' payload rest read in
    (
      request_bytes payload,
      write_request-ok payload (rw len size.0) (rw len size.1),
      cc (
        start.0,
        start.1,
        start.2,
        start.3,
        start.4,
        split,
        request_from l0 l1 payload rest (omega arith) (omega arith) len,
      ),
    )
read_request-eq_some r payload rest bytes h = absurd (ground arith)
