-- ===== src/Atrest/Tests.antt =====
-- A toy AEAD that satisfies the laws, and runs on small sources.
use setec.Prelude.{
  ℕ, ◌≡◌, ◌↔◌, ◌⊎◌, refl, sym, ◌∙◌, inl, inr, true, Option, none, some, Option-cases, List, [], ◌∷◌,
  ◌++◌, ◌==◌, nat_eq, length, length-append, arith, Bool-cases, if◌then◌else◌,
}
use mathlib.Core.List.{append_assoc, replicate}
use setec.Atrest.{
  Gcm, gcm_nonce_size, stream_magic, seal_magic, written, clean, decrypt_error, encrypt,
  encrypt_from, decrypt, seal_dek, open_dek, first_chunk, beyond_chunk, chunk_nonce, frame, prepend,
}
use setec.Atrest.Chunks.{GcmLaws}
use setec.Atrest.Stream.{decrypt-encrypt}
use setec.Atrest.Truncated.{decrypt-truncated}
use setec.Atrest.Sealed.{open_dek-seal_dek}

abbrev mark : List ℕ → List ℕ
mark n = n ++ (0 ∷ 0 ∷ 0 ∷ 0 ∷ [])

abbrev strip : List ℕ → List ℕ → Option (List ℕ)
strip [] c = some c
strip (x ∷ xs) [] = none
strip (x ∷ xs) (y ∷ ys) = if x == y then strip xs ys else none

strip-append : (xs ys : List ℕ) → strip xs (xs ++ ys) ≡ some ys
strip-append [] ys = refl
strip-append (x ∷ xs) ys = let e : (x == x) ≡ true = ground arith in rw e (strip-append xs ys)

strip-eq_some : (xs c p : List ℕ) → strip xs c ≡ some p → c ≡ xs ++ p
strip-eq_some [] c p h = cc
strip-eq_some (x ∷ xs) [] p h = absurd (cc)
strip-eq_some (x ∷ xs) (y ∷ ys) p h = elim (Bool-cases (x == y)) [
  | inl e ↦ let rest = strip-eq_some xs ys p (rw e at h) in let same : x ≡ y = ground arith in cc
  | inr e ↦ absurd (let f = rw e at h in cc)
]

same_front : (n m xs ys : List ℕ) → length n ≡ length m → n ++ xs ≡ m ++ ys → n ≡ m
same_front [] [] xs ys l e = refl
same_front [] (y ∷ m) xs ys l e = absurd (omega (arith, l))
same_front (x ∷ n) [] xs ys l e = absurd (omega (arith, l))
same_front (x ∷ n) (y ∷ m) xs ys l e =
    let rest = same_front n m xs ys (omega (arith, l)) (cc) in let same : x ≡ y = cc in cc

abbrev toy : Gcm
toy = record { seal = λ k n p a. mark n ++ p; unseal = λ k n c a. strip (mark n) c }

toy_laws : GcmLaws toy
toy_laws = record {
  length-seal =
      λ k n p a h. omega (arith, h, length-append (mark n) p, length-append n (0 ∷ 0 ∷ 0 ∷ 0 ∷ []));
  unseal-seal = λ k n p a h. strip-append (mark n) p;
  other_nonce = λ k n m p a h i d. elim (Option-cases (strip (mark m) (mark n ++ p))) [
    | inl e ↦ e
    | inr (q, e) ↦
        let whole = strip-eq_some (mark m) (mark n ++ p) q e in
        let zeros = 0 ∷ 0 ∷ 0 ∷ 0 ∷ [] in
        absurd (
          d (
            same_front n m (zeros ++ p) (zeros ++ q) (h ∙ sym i)
              (sym (append_assoc n zeros p) ∙ whole ∙ append_assoc m zeros q)))
  ];
  authentic = λ k n c p a h e. strip-eq_some (mark n) c p e;
}

abbrev key : List ℕ
key = replicate 32 7

abbrev prefix : List ℕ
prefix = replicate 7 9

abbrev nonce : List ℕ
nonce = replicate 12 3

abbrev text : List ℕ
text = 1 ∷ 2 ∷ 3 ∷ []

abbrev cut : List ℕ
cut = stream_magic ++ (prefix ++ (0 ∷ 0 ∷ 0 ∷ 19 ∷ (prefix ++ (0 ∷ 0 ∷ 0 ∷ []))))

abbrev lost : List ℕ
lost = 0 ∷ 1 ∷ 0 ∷ 0 ∷ 0 ∷ 0 ∷ text

text-written : encrypt toy key prefix text ≡ written (cut ++ lost)
unfolding encrypt encrypt_from chunk_nonce first_chunk beyond_chunk frame prepend
text-written = refl

decrypt-encrypt_example :
    (w : List ℕ) × (encrypt toy key prefix text ≡ written w)
    × (decrypt toy key w ≡ some (text, clean))
decrypt-encrypt_example = decrypt-encrypt toy toy_laws key prefix text refl refl (omega arith)

decrypt-truncated_example :
    (decrypt toy key cut ≡ none)
    ⊎ ((pt : List ℕ) × (decrypt toy key cut ≡ some (pt, decrypt_error)))
decrypt-truncated_example =
    decrypt-truncated toy toy_laws key prefix text (cut ++ lost) cut lost refl refl text-written
      refl (omega arith)

abbrev blob : List ℕ
blob = seal_magic ++ (nonce ++ (mark nonce ++ text))

open_dek-seal_dek_example :
    (open_dek toy key blob [] ≡ some text)
    ↔ ((n : List ℕ) × (length n ≡ gcm_nonce_size) × (seal_dek toy key n text [] ≡ some blob))
open_dek-seal_dek_example = open_dek-seal_dek toy toy_laws key text [] blob refl
