-- ===== src/Wire.antt =====
-- What the byte protocols share. A stream is the list of the bytes that the peer sends before it
-- closes; a byte is a number below 256. io.ReadFull and encoding/binary's big-endian words.
pub mod Laws
use setec.Prelude.{
  ℕ, zero, suc, ◌+◌, ◌*◌, ◌/◌, ◌%◌, ◌^◌, Bool, Option, none, some, List, [], ◌∷◌, ◌==◌, nat_eq,
  ◌&&◌,
}

push_byte : ℕ → Option (List ℕ × List ℕ) → Option (List ℕ × List ℕ)
push_byte b none = none
push_byte b (some (xs, r)) = some (b ∷ xs, r)

-- io.ReadFull of n bytes: what was read and what is left, or nothing when the stream is too short.
unfoldable pub read_full : ℕ → List ℕ → Option (List ℕ × List ℕ)
unfolding push_byte
read_full zero r = some ([], r)
read_full (suc n) [] = none
read_full (suc n) (b ∷ r) = push_byte b (read_full n r)

-- binary.BigEndian.PutUint16 and Uint16.
abbrev pub put_u16 : ℕ → List ℕ
put_u16 n = (n / 256 % 256) ∷ (n % 256) ∷ []

abbrev pub u16 : ℕ → ℕ → ℕ
u16 a b = a * 256 + b

-- binary.BigEndian.PutUint32 and Uint32.
abbrev pub put_u32 : ℕ → List ℕ
put_u32 n = (n / 16777216 % 256) ∷ (n / 65536 % 256) ∷ (n / 256 % 256) ∷ (n % 256) ∷ []

abbrev pub u32 : ℕ → ℕ → ℕ → ℕ → ℕ
u32 a b c d = a * 16777216 + b * 65536 + c * 256 + d

-- The four bytes that a frame starts with.
pub record Magic : Type 0 where
  pub m0 : ℕ
  pub m1 : ℕ
  pub m2 : ℕ
  pub m3 : ℕ

abbrev pub is_magic : Magic → ℕ → ℕ → ℕ → ℕ → Bool
is_magic m a b c d = a == m.m0 && b == m.m1 && c == m.m2 && d == m.m3
