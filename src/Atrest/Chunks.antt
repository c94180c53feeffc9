-- ===== src/Atrest/Chunks.antt =====
-- The round trip of a stream, chunk by chunk.
use setec.Prelude.{
  ℕ, zero, suc, ◌+◌, ◌-◌, ◌*◌, ◌%◌, ◌^◌, ◌≤◌, ◌<◌, ◌≡◌, ◌≢◌, refl, sym, ap, ◌∙◌, inl, inr, Bool,
  true, false, none, some, List, [], ◌∷◌, ◌++◌, ◌==◌, nat_eq, length, take, drop, length-append,
  length-take, arith, Bool-cases, if◌then◌else◌,
}
use mathlib.Core.List.{append-nil}
use setec.Wire.{read_full}
use setec.Wire.Laws.{read_full-append, u32-put_u32}
use setec.Atrest.{
  Gcm, chunk_size, first_chunk, beyond_chunk, gcm_tag_size, gcm_nonce_size, max_ciphertext_chunk,
  nonce_prefix_len, is_empty, chunk_nonce, written, frame, prepend, clean, after, encrypt_from,
  open_chunk, chunk_of, next_chunk, decrypt_from,
}

-- What the code relies on in AES-256-GCM, for nonces of twelve bytes: a ciphertext is a tag longer
-- than its text, and opens under its own nonce to that text and under no other nonce; and nothing else
-- opens.
pub record GcmLaws (gcm : Gcm) : Type 0 where
  pub length-seal :
      (k n p a : List ℕ)
      → length n ≡ gcm_nonce_size
      → length (gcm.seal k n p a) ≡ length p + gcm_tag_size
  pub unseal-seal :
      (k n p a : List ℕ) → length n ≡ gcm_nonce_size → gcm.unseal k n (gcm.seal k n p a) a ≡ some p
  pub other_nonce :
      (k n m p a : List ℕ)
      → length n ≡ gcm_nonce_size
      → length m ≡ gcm_nonce_size
      → n ≢ m
      → gcm.unseal k m (gcm.seal k n p a) a ≡ none
  pub authentic :
      (k n c p a : List ℕ)
      → length n ≡ gcm_nonce_size
      → gcm.unseal k n c a ≡ some p
      → c ≡ gcm.seal k n p a

pub take-drop {ℓ} : {A : Type ℓ} (n : ℕ) (xs : List A) → take n xs ++ drop n xs ≡ xs
take-drop zero xs = refl
take-drop (suc n) [] = refl
take-drop (suc n) (x ∷ xs) = ap (λ l. x ∷ l) (take-drop n xs)

pub length-drop {ℓ} : {A : Type ℓ} (n : ℕ) (xs : List A) → length (drop n xs) ≡ length xs - n
length-drop zero xs = omega arith
length-drop (suc n) [] = omega arith
length-drop (suc n) (x ∷ xs) = omega (arith, length-drop n xs)

pub is_empty-eq_true : (xs : List ℕ) → is_empty xs ≡ true → xs ≡ []
is_empty-eq_true [] h = refl
is_empty-eq_true (x ∷ xs) h = cc

pub is_empty-eq_false : (xs : List ℕ) → is_empty xs ≡ false → 0 < length xs
is_empty-eq_false [] h = cc
is_empty-eq_false (x ∷ xs) h = omega arith

pub length-first_chunk : (src : List ℕ) → length (first_chunk src) ≤ chunk_size
unfolding first_chunk
length-first_chunk src = omega (arith, length-take chunk_size src)

pub length-beyond_chunk : (src : List ℕ) → length (beyond_chunk src) ≡ length src - chunk_size
unfolding beyond_chunk
length-beyond_chunk src = length-drop chunk_size src

first_chunk-beyond_chunk : (src : List ℕ) → first_chunk src ++ beyond_chunk src ≡ src
unfolding first_chunk beyond_chunk
first_chunk-beyond_chunk src = take-drop chunk_size src

beyond_chunk-nil : (src : List ℕ) → is_empty (beyond_chunk src) ≡ true → first_chunk src ≡ src
beyond_chunk-nil src h =
    sym (append-nil (first_chunk src))
    ∙ rw (← is_empty-eq_true (beyond_chunk src) h) (first_chunk-beyond_chunk src)

pub length-chunk_nonce :
    (prefix : List ℕ) (counter : ℕ) (final : Bool)
    → length prefix ≡ nonce_prefix_len
    → length (chunk_nonce prefix counter final) ≡ gcm_nonce_size
unfolding chunk_nonce
length-chunk_nonce prefix counter final h =
    omega
      (arith, h, length-append prefix (setec.Wire.put_u32 counter ++ (if final then 1 else 0) ∷ []))

is_empty-frame : (ct : List ℕ) → is_empty (frame ct) ≡ false
unfolding frame
is_empty-frame ct = refl

is_empty-append : (xs ys : List ℕ) → is_empty xs ≡ false → is_empty (xs ++ ys) ≡ false
is_empty-append [] ys h = cc
is_empty-append (x ∷ xs) ys h = refl

pub length-frame : (ct rest : List ℕ) → length rest < length (frame ct ++ rest)
unfolding frame
length-frame ct rest = omega (arith, length-append ct rest)

module _ (gcm : Gcm) (dek prefix : List ℕ) where
  -- A frame of a size that a chunk can have is read whole.
  pub next_chunk-frame :
      (counter : ℕ) (ct rest : List ℕ)
      → gcm_tag_size ≤ length ct
      → length ct ≤ max_ciphertext_chunk
      → next_chunk gcm dek prefix counter (frame ct ++ rest)
        ≡ open_chunk gcm dek prefix counter (ct, rest)
  unfolding next_chunk chunk_of frame read_full
  next_chunk-frame counter ct rest p q =
      rw (u32-put_u32 (length ct) (omega arith)) (ground (arith, read_full-append ct rest))

  module _ (laws : GcmLaws gcm) (seven : length prefix ≡ nonce_prefix_len) where
    abbrev pub sealed : ℕ → Bool → List ℕ → List ℕ
    sealed counter final src = gcm.seal dek (chunk_nonce prefix counter final) (first_chunk src) []

    pub sealed_size :
        (counter : ℕ) (final : Bool) (src : List ℕ)
        → (gcm_tag_size ≤ length (sealed counter final src))
          × (length (sealed counter final src) ≤ max_ciphertext_chunk)
    sealed_size counter final src =
        let l =
          laws.length-seal dek (chunk_nonce prefix counter final) (first_chunk src) []
            (length-chunk_nonce prefix counter final seven) in
        omega (arith, l, length-first_chunk src)

    pub next_chunk-sealed :
        (counter : ℕ) (src rest : List ℕ)
        → next_chunk gcm dek prefix counter (frame (sealed counter (is_empty rest) src) ++ rest)
          ≡ some (first_chunk src, rest)
    unfolding open_chunk
    next_chunk-sealed counter src rest =
        let (p, q) = sealed_size counter (is_empty rest) src in
        let o =
          laws.unseal-seal dek (chunk_nonce prefix counter (is_empty rest)) (first_chunk src) []
            (length-chunk_nonce prefix counter (is_empty rest) seven) in
        next_chunk-frame counter (sealed counter (is_empty rest) src) rest p q ∙ rw o refl

    -- A read of the chunk that the stream ends with, and of one before others.
    reads_last :
        (g counter : ℕ) (src w : List ℕ)
        → is_empty (beyond_chunk src) ≡ true
        → next_chunk gcm dek prefix counter w ≡ some (first_chunk src, [])
        → length w < g
        → decrypt_from gcm g dek prefix counter w ≡ (src, clean)
    unfolding decrypt_from
    reads_last zero counter src w h e l = absurd (omega (arith, l))
    reads_last (suc g) counter src w h e l = rw (e, beyond_chunk-nil src h) refl

    reads_more :
        (g counter : ℕ) (src w rest : List ℕ)
        → counter + 1 < 2 ^ 32
        → is_empty rest ≡ false
        → next_chunk gcm dek prefix counter w ≡ some (first_chunk src, rest)
        → ((k : ℕ)
            → length rest < k
            → decrypt_from gcm k dek prefix (counter + 1) rest ≡ (beyond_chunk src, clean))
        → length rest < length w
        → length w < g
        → decrypt_from gcm g dek prefix counter w ≡ (src, clean)
    unfolding decrypt_from after
    reads_more zero counter src w rest b n e ih s l = absurd (omega (arith, l))
    reads_more (suc g) counter src w rest b n e ih s l =
        let small : (counter + 1) % 2 ^ 32 ≡ counter + 1 = omega (arith, b) in
        rw (e, n, small, ih g (omega (arith, s, l)), first_chunk-beyond_chunk src) refl

    not_last : (counter : ℕ) → counter ≢ 2 ^ 32 - 1 → (counter == 2 ^ 32 - 1) ≡ false
    not_last counter n = ground arith

    -- The last chunk, and one before others.
    encrypt_from-last :
        (f counter : ℕ) (src : List ℕ)
        → is_empty (beyond_chunk src) ≡ true
        → encrypt_from gcm (suc f) dek prefix counter src
          ≡ written (frame (sealed counter true src))
    unfolding encrypt_from
    encrypt_from-last f counter src h = rw h refl

    encrypt_from-more :
        (f counter : ℕ) (src w : List ℕ)
        → is_empty (beyond_chunk src) ≡ false
        → counter ≢ 2 ^ 32 - 1
        → encrypt_from gcm f dek prefix (counter + 1) (beyond_chunk src) ≡ written w
        → encrypt_from gcm (suc f) dek prefix counter src
          ≡ written (frame (sealed counter false src) ++ w)
    unfolding encrypt_from prepend
    encrypt_from-more f counter src w h n e = rw (h, not_last counter n, e) refl

    -- What a read of the chunks gives, and that the stream has a byte.
    abbrev pub Reads : ℕ → List ℕ → List ℕ → Type 0
    Reads counter src w =
        ((g : ℕ) → length w < g → decrypt_from gcm g dek prefix counter w ≡ (src, clean))
        × (is_empty w ≡ false)

    Reads-last :
        (counter : ℕ) (src : List ℕ)
        → is_empty (beyond_chunk src) ≡ true
        → Reads counter src (frame (sealed counter true src))
    Reads-last counter src h = (
      λ g l.
          reads_last g counter src (frame (sealed counter true src)) h
            (rw append-nil at (next_chunk-sealed counter src [])) l,
      is_empty-frame (sealed counter true src),
    )

    Reads-more :
        (counter : ℕ) (src w : List ℕ)
        → Reads (counter + 1) (beyond_chunk src) w
        → counter + 1 < 2 ^ 32
        → Reads counter src (frame (sealed counter false src) ++ w)
    Reads-more counter src w r b =
        let one = next_chunk-sealed counter src w in
        (
          λ g l.
              reads_more g counter src (frame (sealed counter false src) ++ w) w b r.1
                (rw r.1 at one) (λ k s. r.0 k s)
                (omega (arith, length-frame (sealed counter false src) w)) l,
          is_empty-append (frame (sealed counter false src)) w
              (is_empty-frame (sealed counter false src)),
        )

    -- Enough fuel, and a counter that is not exhausted before the source is.
    pub encrypt_from-Reads :
        (f counter : ℕ) (src : List ℕ)
        → length src < f
        → counter * chunk_size + length src ≤ 2 ^ 52
        → counter < 2 ^ 32
        → (w : List ℕ) × (encrypt_from gcm f dek prefix counter src ≡ written w)
          × Reads counter src w
    encrypt_from-Reads zero counter src l b c = absurd (omega (arith, l))
    encrypt_from-Reads (suc f) counter src l b c = elim (Bool-cases (is_empty (beyond_chunk src))) [
      | inl h ↦ (
        frame (sealed counter true src),
        encrypt_from-last f counter src h,
        Reads-last counter src h,
      )
      | inr h ↦
          let d = length-beyond_chunk src in
          let more = is_empty-eq_false (beyond_chunk src) h in
          let (w, e, r) =
            encrypt_from-Reads f (counter + 1) (beyond_chunk src) (omega arith) (omega arith)
              (omega arith) in
          (
            frame (sealed counter false src) ++ w,
            encrypt_from-more f counter src w h (omega arith) e,
            Reads-more counter src w r (omega arith),
          )
    ]
