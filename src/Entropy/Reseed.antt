-- ===== src/Entropy/Reseed.antt =====
-- Both ends of a reseed: `ServeConn` of guest.go on the bytes of one request, and the exchange of
-- `Reseed` of host.go with a peer that answers the bytes it is sent.
use setec.Prelude.{
  ℕ, ◌≡◌, refl, Bool, true, false, Option, none, some, List, [], ◌∷◌, ◌==◌, ◌&&◌, nat_eq, length,
  arith, if◌then◌else◌,
}
use mathlib.Core.List.{append-nil}
use setec.Wire.{read_full}
use setec.Wire.Laws.{read_full-append}
use setec.Entropy.{
  Ack, status_ok, status_error, digest_size, write_request, read_request, write_ack, read_ack,
}
use setec.Entropy.Frames.{read_request-write_request}

-- ack.Digest != want, the other way round.
abbrev pub bytes_eq : List ℕ → List ℕ → Bool
bytes_eq [] [] = true
bytes_eq [] (y ∷ ys) = false
bytes_eq (x ∷ xs) [] = false
bytes_eq (x ∷ xs) (y ∷ ys) = x == y && bytes_eq xs ys

bytes_eq_refl : (xs : List ℕ) → bytes_eq xs xs ≡ true
bytes_eq_refl [] = refl
bytes_eq_refl (x ∷ xs) = let ih = bytes_eq_refl xs in ground arith

-- Whether the host takes the ack as a completed reseed.
accept : List ℕ → Option Ack → Bool
accept want none = false
accept want (some ack) = ack.status == status_ok && bytes_eq ack.digest want

module _ (sha256 : List ℕ → List ℕ) where
  exchange : List ℕ → Option (List ℕ) → (List ℕ → List ℕ) → Bool
  unfolding accept
  exchange payload none peer = false
  exchange payload (some w) peer = accept (sha256 payload) (read_ack (peer w))

  -- Whether Reseed succeeds for this payload.
  unfoldable pub reseed : List ℕ → (List ℕ → List ℕ) → Bool
  unfolding exchange
  reseed payload peer = exchange payload (write_request payload) peer

  -- The kernel's pool takes a payload, or fails.
  module _ {P : Type 0} (add_entropy : List ℕ → P → Bool × P) where
    served : List ℕ → P → List ℕ × P
    served payload p =
        let (ok, p') = add_entropy payload p in
        (write_ack (if ok then status_ok else status_error) (sha256 payload), p')

    serve_read : Option (List ℕ × List ℕ) → P → Option (List ℕ × P)
    unfolding served
    serve_read none p = none
    serve_read (some (payload, rest)) p = some (served payload p)

    -- The ack and the pool after it, or nothing when no request was read.
    unfoldable pub serve_conn : List ℕ → P → Option (List ℕ × P)
    unfolding serve_read
    serve_conn stream p = serve_read (read_request stream) p

    sent : Option (List ℕ × P) → List ℕ
    sent none = []
    sent (some (bytes, p)) = bytes

    -- The guest as a peer of the host.
    unfoldable pub guest_peer : P → List ℕ → List ℕ
    unfolding sent
    guest_peer p stream = sent (serve_conn stream p)

    serve_conn-write_request :
        (payload w : List ℕ) (p : P)
        → write_request payload ≡ some w
        → serve_conn w p ≡ some (served payload p)
    unfolding serve_conn
    serve_conn-write_request payload w p h =
        let back = read_request-write_request payload w [] h in rw (rw append-nil at back) refl

  read_ack-write_ack :
      (status : ℕ) (digest : List ℕ)
      → length digest ≡ digest_size
      → read_ack (write_ack status digest) ≡ some (record { status = status; digest = digest })
  unfolding read_ack write_ack read_full
  read_ack-write_ack status digest h =
      let back = read_full-append digest [] in
      let all : read_full 32 digest ≡ some (digest, []) = rw (append-nil, h) at back in
      ground (arith, all)

  accept-written :
      (ok : Bool) (digest : List ℕ)
      → accept digest
          (some (record { status = if ok then status_ok else status_error; digest = digest }))
        ≡ ok
  unfolding accept
  accept-written true digest = bytes_eq_refl digest
  accept-written false digest = refl

  -- Against the guest's own handler, for a payload that can be sent and a digest of 32 bytes, the host
  -- takes the reseed as completed exactly when the pool of the guest took that payload, and the guest
  -- is left with the pool after it.
  pub reseed-guest_peer :
      {P : Type 0} (add_entropy : List ℕ → P → Bool × P) (p : P) (payload w : List ℕ)
      → length (sha256 payload) ≡ digest_size
      → write_request payload ≡ some w
      → (reseed payload (guest_peer add_entropy p) ≡ (add_entropy payload p).0)
        × ((acked : List ℕ) × (serve_conn add_entropy w p
              ≡ some (acked, (add_entropy payload p).1)))
  unfolding reseed guest_peer served
  reseed-guest_peer add_entropy p payload w h k =
      let s = serve_conn-write_request add_entropy payload w p k in
      (
        rw
            (
              k,
              s,
              read_ack-write_ack (if (add_entropy payload p).0 then status_ok else status_error)
                  (sha256 payload) h,
            )
            (accept-written (add_entropy payload p).0 (sha256 payload)),
        ((served add_entropy payload p).0, s),
      )
