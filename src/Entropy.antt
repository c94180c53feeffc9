-- ===== src/Entropy.antt =====
-- internal/entropy: the reseed request and its ack (protocol.go), the guest's handler (guest.go), and
-- the host's exchange after the vsock handshake (host.go). SHA-256 is a parameter, and so is the
-- kernel's entropy pool, which takes a payload or fails.
pub mod Frames
pub mod Reseed
mod Tests
use setec.Prelude.{
  ℕ, ◌+◌, Bool, true, false, Option, none, some, List, [], ◌∷◌, ◌++◌, ◌==◌, ◌!=◌, nat_eq, not, ltb,
  length, if◌then◌else◌,
}
use setec.Wire.{read_full, put_u16, u16, Magic, is_magic}

infixl 5 ◌>>=◌
abbrev ◌>>=◌ {ℓ κ} : {A : Type ℓ} {B : Type κ} → Option A → (A → Option B) → Option B
some a >>= f = f a
none >>= f = none

abbrev pub protocol_version : ℕ
protocol_version = 1

abbrev pub max_payload_bytes : ℕ
max_payload_bytes = 4096

abbrev pub status_ok : ℕ
status_ok = 0

abbrev pub status_error : ℕ
status_error = 1

abbrev pub digest_size : ℕ
digest_size = 32

-- "SRSD" and "SRSA".
abbrev pub request_magic : Magic
request_magic = record { m0 = b'S'; m1 = b'R'; m2 = b'S'; m3 = b'D' }

abbrev pub ack_magic : Magic
ack_magic = record { m0 = b'S'; m1 = b'R'; m2 = b'S'; m3 = b'A' }

pub record Ack : Type 0 where
  pub status : ℕ
  pub digest : List ℕ

request_bytes : List ℕ → List ℕ
request_bytes payload =
    request_magic.m0
    ∷ request_magic.m1
    ∷ request_magic.m2
    ∷ request_magic.m3
    ∷ protocol_version
    ∷ (put_u16 (length payload) ++ payload)

-- The bytes of a request, or nothing when WriteRequest refuses the payload.
unfoldable pub write_request : List ℕ → Option (List ℕ)
unfolding request_bytes
write_request payload =
    if length payload == 0
    then none
    else if ltb max_payload_bytes (length payload)
    then none
    else some (request_bytes payload)

parse_request : List ℕ → Option ℕ
parse_request (a ∷ b ∷ c ∷ d ∷ v ∷ l0 ∷ l1 ∷ []) =
    if not (is_magic request_magic a b c d)
    then none
    else if v != protocol_version
    then none
    else if u16 l0 l1 == 0
    then none
    else if ltb max_payload_bytes (u16 l0 l1)
    then none
    else some (u16 l0 l1)
parse_request _ = none

-- The payload of a request, and the stream behind it; `none` for every error.
unfoldable pub read_request : List ℕ → Option (List ℕ × List ℕ)
unfolding parse_request
read_request r = do (header, r') ← read_full 7 r; n ← parse_request header; read_full n r'

unfoldable pub write_ack : ℕ → List ℕ → List ℕ
write_ack status digest =
    ack_magic.m0 ∷ ack_magic.m1 ∷ ack_magic.m2 ∷ ack_magic.m3 ∷ protocol_version ∷ status ∷ digest

parse_ack : List ℕ → Option Ack
parse_ack (a ∷ b ∷ c ∷ d ∷ v ∷ s ∷ digest) =
    if not (is_magic ack_magic a b c d)
    then none
    else if v != protocol_version
    then none
    else some (record { status = s; digest = digest })
parse_ack _ = none

unfoldable pub read_ack : List ℕ → Option Ack
unfolding parse_ack
read_ack r = do (frame, r') ← read_full (4 + 2 + digest_size) r; parse_ack frame
