-- ===== src/Wire/Laws.antt =====
-- Laws of the reads, and of the big-endian words.
use setec.Prelude.{
  ℕ, zero, suc, ◌/◌, ◌%◌, ◌^◌, ◌<◌, ◌≡◌, refl, ◌∙◌, inl, inr, none, some, List, [], ◌∷◌, ◌++◌,
  length, arith, Option-cases,
}
use setec.Wire.{read_full, put_u16, u16, put_u32, u32}

abbrev pub IsBytes : List ℕ → Type 0
IsBytes [] = Unit
IsBytes (b ∷ bs) = (b < 256) × IsBytes bs

-- What stands first on the stream is read, and the rest is left.
pub read_full-append : (xs rest : List ℕ) → read_full (length xs) (xs ++ rest) ≡ some (xs, rest)
unfolding read_full
read_full-append [] rest = refl
read_full-append (x ∷ xs) rest = rw (read_full-append xs rest)

-- A read takes what it returns from the front of the stream, and as many bytes as were asked for.
pub read_full-eq_some :
    (n : ℕ) (r xs rest : List ℕ)
    → read_full n r ≡ some (xs, rest)
    → (r ≡ xs ++ rest) × (length xs ≡ n)
unfolding read_full
read_full-eq_some zero r [] rest h = ground arith
read_full-eq_some zero r (x ∷ xs) rest h = cc
read_full-eq_some (suc n) [] xs rest h = cc
read_full-eq_some (suc n) (b ∷ r) xs rest h = elim (Option-cases (read_full n r)) [
  | inl e ↦ absurd (ground arith)
  | inr (p, e) ↦ ground (arith, read_full-eq_some n r p.0 p.1 (e ∙ refl))
]

-- A read fails exactly when the stream is too short.
pub read_full-none : (n : ℕ) (r : List ℕ) → length r < n → read_full n r ≡ none
unfolding read_full
read_full-none zero r h = absurd (omega arith)
read_full-none (suc n) [] h = refl
read_full-none (suc n) (b ∷ r) h = rw (read_full-none n r (omega arith))

pub u16-put_u16 : (n : ℕ) → n < 65536 → u16 (n / 256 % 256) (n % 256) ≡ n
u16-put_u16 n h = omega arith

pub put_u16-u16 : (a b : ℕ) → a < 256 → b < 256 → put_u16 (u16 a b) ≡ a ∷ b ∷ []
put_u16-u16 a b p q = ground arith

pub u32-put_u32 :
    (n : ℕ) → n < 2 ^ 32 → u32 (n / 16777216 % 256) (n / 65536 % 256) (n / 256 % 256) (n % 256) ≡ n
u32-put_u32 n h = omega arith

pub put_u32-u32 :
    (a b c d : ℕ)
    → a < 256
    → b < 256
    → c < 256
    → d < 256
    → put_u32 (u32 a b c d) ≡ a ∷ b ∷ c ∷ d ∷ []
put_u32-u32 a b c d p q r s = ground arith
