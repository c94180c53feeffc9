-- ===== src/Entropy/Tests.antt =====
-- A small reseed, and the theorems at it. The digest is 32 zero bytes.
use setec.Prelude.{ℕ, ◌≡◌, refl, Bool, true, some, List, [], ◌∷◌, ◌++◌, length, ◌+◌}
use setec.Entropy.{write_request, read_request}
use setec.Entropy.Frames.{read_request-write_request}
use setec.Entropy.Reseed.{reseed, serve_conn, guest_peer, reseed-guest_peer}

abbrev sent_request : List ℕ
sent_request = b'S' ∷ b'R' ∷ b'S' ∷ b'D' ∷ 1 ∷ 0 ∷ 2 ∷ 7 ∷ 8 ∷ []

request_written : write_request (7 ∷ 8 ∷ []) ≡ some sent_request
unfolding write_request
request_written = refl

sent_request_again : read_request (sent_request ++ (9 ∷ [])) ≡ some (7 ∷ 8 ∷ [], 9 ∷ [])
sent_request_again = read_request-write_request (7 ∷ 8 ∷ []) sent_request (9 ∷ []) request_written

abbrev zeros : List ℕ → List ℕ
zeros payload =
    0 ∷ 0 ∷ 0 ∷ 0 ∷ 0 ∷ 0 ∷ 0 ∷ 0 ∷ 0 ∷ 0 ∷ 0 ∷ 0 ∷ 0 ∷ 0 ∷ 0 ∷ 0 ∷ 0 ∷ 0 ∷ 0 ∷ 0 ∷ 0 ∷ 0 ∷ 0 ∷ 0
    ∷ 0 ∷ 0 ∷ 0 ∷ 0 ∷ 0 ∷ 0 ∷ 0 ∷ 0 ∷ []

-- The pool counts the bytes that it took.
abbrev count_bytes : List ℕ → ℕ → Bool × ℕ
count_bytes payload n = (true, n + length payload)

reseed-guest_peer_example :
    (reseed zeros (7 ∷ 8 ∷ []) (guest_peer zeros count_bytes 0) ≡ true)
    × ((acked : List ℕ) × (serve_conn zeros count_bytes sent_request 0 ≡ some (acked, 2)))
reseed-guest_peer_example =
    reseed-guest_peer zeros count_bytes 0 (7 ∷ 8 ∷ []) sent_request refl request_written
