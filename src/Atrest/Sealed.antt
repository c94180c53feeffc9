-- ===== src/Atrest/Sealed.antt =====
-- The sealed key of an artifact.
use setec.Prelude.{
  ℕ, zero, suc, ◌+◌, ◌≤◌, ◌≡◌, ◌↔◌, refl, sym, ap, ◌∙◌, inl, inr, true, false, some, List, [], ◌∷◌,
  ◌++◌, ◌==◌, nat_eq, ltb, length, take, drop, length-append, length-take, take-append_length,
  drop-append_length, arith, Bool-cases, ℕ_discrete,
}
use setec.Atrest.{
  Gcm, key_size, gcm_nonce_size, gcm_tag_size, seal_magic, bytes_eq, seal_dek, open_dek,
}
use setec.Atrest.Chunks.{GcmLaws, take-drop, length-drop}

bytes_eq-eq : (xs ys : List ℕ) → bytes_eq xs ys ≡ true → xs ≡ ys
bytes_eq-eq [] [] h = refl
bytes_eq-eq [] (y ∷ ys) h = absurd (cc)
bytes_eq-eq (x ∷ xs) [] h = absurd (cc)
bytes_eq-eq (x ∷ xs) (y ∷ ys) h = elim (Bool-cases (x == y)) [
  | inl e ↦ let rest = bytes_eq-eq xs ys (rw e at h) in let same : x ≡ y = ground arith in cc
  | inr e ↦ absurd (let f = rw e at h in cc)
]

drop-nil : (n : ℕ) → drop {A = ℕ} n [] ≡ []
drop-nil zero = refl
drop-nil (suc n) = refl

drop-drop : (n m : ℕ) (xs : List ℕ) → drop m (drop n xs) ≡ drop (n + m) xs
drop-drop zero m xs = ap (λ k. drop k xs) (omega arith)
drop-drop (suc n) m [] = drop-nil m ∙ sym (drop-nil (suc n + m))
drop-drop (suc n) m (x ∷ xs) =
    let k : suc (n + m) ≡ suc n + m = omega arith in drop-drop n m xs ∙ ap (λ i. drop i (x ∷ xs)) k

module _ (gcm : Gcm) (laws : GcmLaws gcm) (kek dek aad : List ℕ) where
  seal_opens :
      (nonce : List ℕ)
      → length kek ≡ key_size
      → length nonce ≡ gcm_nonce_size
      → open_dek gcm kek (seal_magic ++ (nonce ++ gcm.seal kek nonce dek aad)) aad ≡ some dek
  unfolding open_dek
  seal_opens nonce k n =
      let ct = gcm.seal kek nonce dek aad in
      let size = laws.length-seal kek nonce dek aad n in
      let long : ltb (length (seal_magic ++ (nonce ++ ct))) (8 + gcm_nonce_size + gcm_tag_size)
          ≡ false =
        let total = length-append nonce ct in ground arith in
      let nonce_read = rw n at (take-append_length nonce ct) in
      let ct_read = rw n at (drop-append_length nonce ct) in
      rw (k, long, nonce_read, ct_read) (laws.unseal-seal kek nonce dek aad n)

  -- The parts of a blob that opens.
  open_parts :
      (blob : List ℕ)
      → length kek ≡ key_size
      → 36 ≤ length blob
      → take 8 blob ≡ seal_magic
      → gcm.unseal kek (take gcm_nonce_size (drop 8 blob)) (drop (8 + gcm_nonce_size) blob) aad
        ≡ some dek
      → (nonce : List ℕ) × (length nonce ≡ gcm_nonce_size)
        × (seal_dek gcm kek nonce dek aad ≡ some blob)
  unfolding seal_dek
  open_parts blob k l m o =
      let nonce = take gcm_nonce_size (drop 8 blob) in
      let ct = drop (8 + gcm_nonce_size) blob in
      let size : length nonce ≡ gcm_nonce_size =
        omega (arith, length-take gcm_nonce_size (drop 8 blob), length-drop 8 blob, l) in
      let sealed_ct : ct ≡ gcm.seal kek nonce dek aad =
        laws.authentic kek nonce ct dek aad size o in
      let whole : seal_magic ++ (nonce ++ ct) ≡ blob =
        ap (λ l. l ++ (nonce ++ ct)) (sym m)
        ∙ ap (λ l. take 8 blob ++ (nonce ++ l)) (sym (drop-drop 8 gcm_nonce_size blob))
        ∙ ap (λ l. take 8 blob ++ l) (take-drop gcm_nonce_size (drop 8 blob))
        ∙ take-drop 8 blob in
      (nonce, size, rw (k, ← sealed_ct, whole) refl)

  open_seals :
      (blob : List ℕ)
      → open_dek gcm kek blob aad ≡ some dek
      → (nonce : List ℕ) × (length nonce ≡ gcm_nonce_size)
        × (seal_dek gcm kek nonce dek aad ≡ some blob)
  unfolding open_dek
  open_seals blob e = elim (ℕ_discrete (length kek) key_size) [
    | no n ↦ absurd (ground arith)
    | yes k ↦
        let e2 = rw k at e in
        elim (Bool-cases (ltb (length blob) (8 + gcm_nonce_size + gcm_tag_size))) [
          | inl l ↦ absurd (let e3 = rw l at e2 in cc)
          | inr l ↦
              let e3 = rw l at e2 in
              elim (Bool-cases (bytes_eq (take 8 blob) seal_magic)) [
                | inl m ↦
                    open_parts blob k (ground arith) (bytes_eq-eq (take 8 blob) seal_magic m)
                      (rw m at e3)
                | inr m ↦ absurd (let e4 = rw m at e3 in cc)
              ]
        ]
  ]

-- For a key of 32 bytes: a blob opens to a data key under an additional text exactly when it is what
-- SealDEK makes of that data key and that text with some nonce of twelve bytes.
pub open_dek-seal_dek :
    (gcm : Gcm) (laws : GcmLaws gcm) (kek dek aad blob : List ℕ)
    → length kek ≡ key_size
    → (open_dek gcm kek blob aad ≡ some dek) ↔ (
        (nonce : List ℕ) × (length nonce ≡ gcm_nonce_size)
        × (seal_dek gcm kek nonce dek aad ≡ some blob))
unfolding seal_dek
open_dek-seal_dek gcm laws kek dek aad blob k = (
  open_seals gcm laws kek dek aad blob,
  λ s.
      let same = rw k at s.2 in
      let e : seal_magic ++ (s.0 ++ gcm.seal kek s.0 dek aad) ≡ blob = cc in
      rw e at (seal_opens gcm laws kek dek aad s.0 k s.1),
)
