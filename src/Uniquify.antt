-- ===== src/Uniquify.antt =====
-- internal/uniquify/protocol.go: the framed wire protocol by which the host directs a fresh identity
-- to a restored guest. A message is `magic[4] | version[1] | length uint32 BE | body`. Writing to a
-- stream that breaks is not modelled: the other side then reads a stream that is too short.
pub mod Frame
pub mod Host
pub mod Guest
pub mod Exchange
pub mod Hostname
mod Tests
use setec.Prelude.{
  ℕ, ◌+◌, ◌*◌, Bool, String, Option, none, some, List, [], ◌∷◌, ◌++◌, ◌≡◌, ◌==◌, ◌!=◌, nat_eq, ltb,
  not, length, if◌then◌else◌,
}
use setec.Wire.{read_full, put_u32, u32, Magic, is_magic}

pub data Error : Type 0 where
  empty_frame frame_too_large read_header bad_magic bad_version zero_length length_too_large
        read_body :
      Error
  decode_spec decode_report : Error

pub data Result {ℓ} (A : Type ℓ) : Type ℓ where
  ok : A → Result A
  err : Error → Result A

infixl 5 ◌>>=◌
abbrev pub ◌>>=◌ {ℓ κ} : {A : Type ℓ} {B : Type κ} → Result A → (A → Result B) → Result B
ok a >>= f = f a
err e >>= f = err e

abbrev pub protocol_version : ℕ
protocol_version = 1

abbrev pub max_frame_bytes : ℕ
max_frame_bytes = 64 * 1024

-- "SUNQ" and "SUNA".
abbrev pub spec_magic : Magic
spec_magic = record { m0 = b'S'; m1 = b'U'; m2 = b'N'; m3 = b'Q' }

abbrev pub report_magic : Magic
report_magic = record { m0 = b'S'; m1 = b'U'; m2 = b'N'; m3 = b'A' }

pub record Spec : Type 0 where
  pub machine_id : String
  pub boot_id : String
  pub hostname : String
  pub pod_ip : String

-- `status` is a byte: 0 for StatusOK, 1 for StatusError. `guest_cid` is a uint32.
pub record Report : Type 0 where
  pub status : ℕ
  pub error_text : String
  pub digest : String
  pub machine_id : String
  pub boot_id : String
  pub hostname : String
  pub observed_ips : List String
  pub guest_cid : ℕ

abbrev pub status_ok : ℕ
status_ok = 0

abbrev pub status_error : ℕ
status_error = 1

frame_bytes : Magic → List ℕ → List ℕ
frame_bytes m body = m.m0 ∷ m.m1 ∷ m.m2 ∷ m.m3 ∷ protocol_version ∷ (put_u32 (length body) ++ body)

-- The bytes that writeFrame puts on the stream, or why it refuses.
unfoldable pub write_frame : Magic → List ℕ → Result (List ℕ)
unfolding frame_bytes
write_frame m body =
    if length body == 0
    then err empty_frame
    else if ltb max_frame_bytes (length body)
    then err frame_too_large
    else ok (frame_bytes m body)

-- The length that a header of nine bytes announces.
parse_header : Magic → List ℕ → Result ℕ
parse_header m (a ∷ b ∷ c ∷ d ∷ v ∷ l0 ∷ l1 ∷ l2 ∷ l3 ∷ []) =
    if not (is_magic m a b c d)
    then err bad_magic
    else if v != protocol_version
    then err bad_version
    else if u32 l0 l1 l2 l3 == 0
    then err zero_length
    else if ltb max_frame_bytes (u32 l0 l1 l2 l3)
    then err length_too_large
    else ok (u32 l0 l1 l2 l3)
parse_header m _ = err read_header

or_error : {A : Type 0} → Error → Option A → Result A
or_error e none = err e
or_error e (some a) = ok a

-- One frame from the stream: its body, and the stream behind it.
unfoldable pub read_frame : Magic → List ℕ → Result (List ℕ × List ℕ)
unfolding or_error parse_header
read_frame m r = do
  (header, r') ← or_error read_header (read_full 9 r)
  n ← parse_header m header
  or_error read_body (read_full n r')

-- encoding/json of the two messages, and the lowercase-hex SHA-256.
pub record Codec : Type 0 where
  pub marshal_spec : Spec → List ℕ
  pub unmarshal_spec : List ℕ → Option Spec
  pub marshal_report : Report → List ℕ
  pub unmarshal_report : List ℕ → Option Report
  pub digest_hex : List ℕ → String

module _ (c : Codec) where
  -- The bytes on the stream, and the body whose digest the host expects back.
  unfoldable pub write_spec : Spec → Result (List ℕ × List ℕ)
  write_spec s = do let body = c.marshal_spec s; out ← write_frame spec_magic body; ok (out, body)

  unfoldable pub read_spec : List ℕ → Result (Spec × List ℕ)
  unfolding or_error
  read_spec r = do
    (body, _) ← read_frame spec_magic r
    s ← or_error decode_spec (c.unmarshal_spec body)
    ok (s, body)

  unfoldable pub write_report : Report → Result (List ℕ)
  write_report report = write_frame report_magic (c.marshal_report report)

  unfoldable pub read_report : List ℕ → Result Report
  unfolding or_error
  read_report r = do
    (body, _) ← read_frame report_magic r
    or_error decode_report (c.unmarshal_report body)
