-- ===== src/Atrest/Truncated.antt =====
-- A stream that was cut anywhere is refused.
use setec.Prelude.{
  ℕ, zero, suc, ◌+◌, ◌-◌, ◌%◌, ◌^◌, ◌≤◌, ◌<◌, ◌≡◌, ◌≢◌, ◌⊎◌, refl, ap, ◌∙◌, inl, inr, Bool, true,
  false, none, some, List, [], ◌∷◌, ◌++◌, ◌==◌, nat_eq, length, length-append, arith, Bool-cases,
}
use setec.Wire.{read_full, u32}
use setec.Wire.Laws.{read_full-none, u32-put_u32}
use setec.Atrest.{
  Gcm, max_ciphertext_chunk, key_size, nonce_prefix_len, stream_magic, is_empty, chunk_nonce,
  Encrypted, written, bad_key, counter_exhausted, out_of_fuel, frame, prepend, beyond_chunk,
  decrypt_error, after, first_chunk, encrypt_from, encrypt, open_chunk, chunk_of, next_chunk,
  decrypt_from, decrypt, decrypt_header,
}
use setec.Atrest.Chunks.{
  GcmLaws, next_chunk-sealed, length-frame, sealed, sealed_size, next_chunk-frame,
  length-chunk_nonce,
}
use mathlib.Core.List.{append-nil}
use setec.Atrest.Stream.{decrypt-header}

-- Two splits of one list: the first part of the other is shorter, or starts with the first part.
split_at :
    (xs ys t zs : List ℕ)
    → xs ++ ys ≡ t ++ zs
    → (length t < length xs) ⊎ ((s : List ℕ) × (t ≡ xs ++ s) × (ys ≡ s ++ zs))
split_at [] ys t zs e = inr (t, refl, e)
split_at (x ∷ xs) ys [] zs e = inl (omega arith)
split_at (x ∷ xs) ys (y ∷ t) zs e =
    let same : x ≡ y = cc in
    elim (split_at xs ys t zs (cc)) [ inl l ↦ inl (omega arith) | inr (s, p, q) ↦ inr (s, cc, q) ]

-- The first four bytes hold the length of the ciphertext.
length_bytes :
    (a b c d : ℕ) (ct tail t zs : List ℕ)
    → length ct ≤ max_ciphertext_chunk
    → frame ct ++ tail ≡ (a ∷ b ∷ c ∷ d ∷ t) ++ zs
    → u32 a b c d ≡ length ct
unfolding frame
length_bytes a b c d ct tail t zs q e =
    let back = u32-put_u32 (length ct) (omega (arith, q)) in ground arith

chunk_nonce-differs :
    (prefix : List ℕ) (counter : ℕ)
    → chunk_nonce prefix counter false ≢ chunk_nonce prefix counter true
unfolding chunk_nonce
chunk_nonce-differs [] counter h = cc
chunk_nonce-differs (p ∷ prefix) counter h = chunk_nonce-differs prefix counter (cc)

module _ (gcm : Gcm) (dek prefix : List ℕ) where
  -- Less than a frame is no chunk.
  next_chunk-short :
      (counter : ℕ) (ct tail t zs : List ℕ)
      → length ct ≤ max_ciphertext_chunk
      → frame ct ++ tail ≡ t ++ zs
      → length t < length (frame ct)
      → next_chunk gcm dek prefix counter t ≡ none
  unfolding next_chunk chunk_of frame read_full
  next_chunk-short counter ct tail (a ∷ b ∷ c ∷ d ∷ t) zs q e l =
      let n : u32 a b c d ≡ length ct = length_bytes a b c d ct tail t zs q e in
      let none_read = read_full-none (length ct) t (omega (arith, l)) in
      let short : read_full (u32 a b c d) t ≡ none = rw n none_read in ground arith
  next_chunk-short counter ct tail t zs q e l = refl

  module _ (laws : GcmLaws gcm) (seven : length prefix ≡ nonce_prefix_len) where
    -- What the loop writes: the last chunk, or one before what it writes for the rest.
    data Writes (f counter : ℕ) (src : List ℕ) : List ℕ → Type 0 where
      last : Writes f counter src (frame (sealed gcm dek prefix laws seven counter true src))
      more :
          (w : List ℕ)
          → counter ≢ 2 ^ 32 - 1
          → encrypt_from gcm f dek prefix (counter + 1) (beyond_chunk src) ≡ written w
          → Writes f counter src (frame (sealed gcm dek prefix laws seven counter false src) ++ w)

    Writes-eq :
        (f counter : ℕ) (src v w : List ℕ)
        → Writes f counter src v
        → written v ≡ written w
        → Writes f counter src w
    Writes-eq f counter src v w k e = let same : v ≡ w = cc in rw (← same) k

    prepend-written :
        (bs w : List ℕ) (r : Encrypted)
        → prepend bs r ≡ written w
        → (v : List ℕ) × (r ≡ written v) × (bs ++ v ≡ w)
    unfolding prepend
    prepend-written bs w (written v) e = (v, refl, cc)
    prepend-written bs w bad_key e = absurd (cc)
    prepend-written bs w counter_exhausted e = absurd (cc)
    prepend-written bs w out_of_fuel e = absurd (cc)

    encrypt_from-Writes :
        (f counter : ℕ) (src w : List ℕ)
        → encrypt_from gcm (suc f) dek prefix counter src ≡ written w
        → Writes f counter src w
    unfolding encrypt_from
    encrypt_from-Writes f counter src w e = elim (Bool-cases (is_empty (beyond_chunk src))) [
      | inl h ↦ Writes-eq f counter src _ w last (rw h at e)
      | inr h ↦ elim (Bool-cases (counter == 2 ^ 32 - 1)) [
        | inl n ↦ absurd (let e2 = rw (h, n) at e in cc)
        | inr n ↦
            let e2 = rw (h, n) at e in
            let (v, r, same) =
              prepend-written (frame (sealed gcm dek prefix laws seven counter false src)) w
                (encrypt_from gcm f dek prefix (counter + 1) (beyond_chunk src)) e2 in
            Writes-eq f counter src _ w (more v (λ q. ground arith) r) (ap written same)
      ]
    ]

    -- The chunk that others follow does not open as the last one.
    not_final :
        (counter : ℕ) (src : List ℕ)
        → open_chunk gcm dek prefix counter (sealed gcm dek prefix laws seven counter false src, [])
          ≡ none
    unfolding open_chunk
    not_final counter src =
        let o =
          laws.other_nonce dek (chunk_nonce prefix counter false) (chunk_nonce prefix counter true)
            (first_chunk src) [] (length-chunk_nonce prefix counter false seven)
            (length-chunk_nonce prefix counter true seven) (chunk_nonce-differs prefix counter) in
        rw o refl

    -- A read that fails ends the stream with the error.
    decrypt_from-none :
        (g counter : ℕ) (t : List ℕ)
        → length t < g
        → next_chunk gcm dek prefix counter t ≡ none
        → (decrypt_from gcm g dek prefix counter t).1 ≡ decrypt_error
    unfolding decrypt_from
    decrypt_from-none zero counter t l h = absurd (omega (arith, l))
    decrypt_from-none (suc g) counter t l h = rw h refl

    decrypt_from-some :
        (g counter : ℕ) (t pt rest : List ℕ)
        → counter + 1 < 2 ^ 32
        → is_empty rest ≡ false
        → next_chunk gcm dek prefix counter t ≡ some (pt, rest)
        → (decrypt_from gcm g dek prefix (counter + 1) rest).1 ≡ decrypt_error
        → (decrypt_from gcm (suc g) dek prefix counter t).1 ≡ decrypt_error
    unfolding decrypt_from after
    decrypt_from-some g counter t pt rest b n h r =
        let small : (counter + 1) % 2 ^ 32 ≡ counter + 1 = omega (arith, b) in rw (h, n, small) r

    -- After the chunks that are whole: the end of the stream, or a part of the next one.
    beyond_cut :
        (g counter : ℕ) (src t s v zs : List ℕ)
        → ((k : ℕ)
            → length s < k
            → (decrypt_from gcm k dek prefix (counter + 1) s).1 ≡ decrypt_error)
        → t ≡ frame (sealed gcm dek prefix laws seven counter false src) ++ s
        → counter + 1 < 2 ^ 32
        → length t < g
        → (decrypt_from gcm g dek prefix counter t).1 ≡ decrypt_error
    beyond_cut zero counter src t s v zs ih e c l = absurd (omega (arith, l))
    beyond_cut (suc g) counter src t [] v zs ih e c l =
        let (p, q) = sealed_size gcm dek prefix laws seven counter false src in
        decrypt_from-none (suc g) counter t l (
          rw e (
            next_chunk-frame gcm dek prefix counter
              (sealed gcm dek prefix laws seven counter false src) [] p q
            ∙ not_final counter src))
    beyond_cut (suc g) counter src t (b ∷ s) v zs ih e c l =
        let ct = sealed gcm dek prefix laws seven counter false src in
        decrypt_from-some g counter t (first_chunk src) (b ∷ s) c refl
          (rw e (next_chunk-sealed gcm dek prefix laws seven counter src (b ∷ s)))
          (ih g (omega (arith, l, ap length e, length-frame ct (b ∷ s))))

    short_cut :
        (g counter : ℕ) (final : Bool) (src tail t zs : List ℕ)
        → frame (sealed gcm dek prefix laws seven counter final src) ++ tail ≡ t ++ zs
        → length t < length (frame (sealed gcm dek prefix laws seven counter final src))
        → length t < g
        → (decrypt_from gcm g dek prefix counter t).1 ≡ decrypt_error
    short_cut g counter final src tail t zs e s l =
        let (p, q) = sealed_size gcm dek prefix laws seven counter final src in
        decrypt_from-none g counter t l (
          next_chunk-short counter (sealed gcm dek prefix laws seven counter final src) tail t zs q
            e s)

    -- Whatever is cut off, the reader ends with the error.
    abbrev CutAt : ℕ → ℕ → List ℕ → List ℕ → Type 0
    CutAt g counter t zs =
        0 < length zs
        → counter < 2 ^ 32
        → length t < g
        → (decrypt_from gcm g dek prefix counter t).1 ≡ decrypt_error

    Writes-cut :
        (f g counter : ℕ) (src t zs w : List ℕ)
        → ((v s : List ℕ) (k : ℕ)
            → encrypt_from gcm f dek prefix (counter + 1) (beyond_chunk src) ≡ written v
            → v ≡ s ++ zs
            → CutAt k (counter + 1) s zs)
        → Writes f counter src w
        → w ≡ t ++ zs
        → CutAt g counter t zs
    Writes-cut f g counter src t zs w ih last s z c l =
        let ct = sealed gcm dek prefix laws seven counter true src in
        elim (split_at (frame ct) [] t zs (append-nil (frame ct) ∙ s)) [
          | inl short ↦ short_cut g counter true src [] t zs (append-nil (frame ct) ∙ s) short l
          | inr (u, p, q) ↦ absurd (omega (arith, z, ap length q, length-append u zs))
        ]
    Writes-cut f g counter src t zs w ih (more v n r) s z c l =
        let ct = sealed gcm dek prefix laws seven counter false src in
        elim (split_at (frame ct) v t zs s) [
          | inl short ↦ short_cut g counter false src v t zs s short l
          | inr (u, p, q) ↦
              let small : counter + 1 < 2 ^ 32 = omega (arith, c, n) in
              beyond_cut g counter src t u v zs (λ k m. ih v u k r q z small m) p small l
        ]

    pub decrypt_from-cut :
        (f g counter : ℕ) (src t zs w : List ℕ)
        → encrypt_from gcm f dek prefix counter src ≡ written w
        → w ≡ t ++ zs
        → CutAt g counter t zs
    unfolding encrypt_from
    decrypt_from-cut zero g counter src t zs w e s = absurd (cc)
    decrypt_from-cut (suc f) g counter src t zs w e s =
        Writes-cut f g counter src t zs w
          (λ v u k. decrypt_from-cut f k (counter + 1) (beyond_chunk src) u zs v)
          (encrypt_from-Writes f counter src w e) s

header_none :
    (gcm : Gcm) (dek t : List ℕ) → length t < 8 + nonce_prefix_len → decrypt gcm dek t ≡ none
unfolding decrypt decrypt_header
header_none gcm dek t l = let e = read_full-none (8 + nonce_prefix_len) t l in ground arith

-- When a stream that Encrypt wrote was cut anywhere, also between two chunks or inside the header, there
-- is no reader, or what is read ends with the error: never as the end of the source.
pub decrypt-truncated :
    (gcm : Gcm) (laws : GcmLaws gcm) (dek prefix src w t zs : List ℕ)
    → length dek ≡ key_size
    → length prefix ≡ nonce_prefix_len
    → encrypt gcm dek prefix src ≡ written w
    → w ≡ t ++ zs
    → 0 < length zs
    → (decrypt gcm dek t ≡ none) ⊎ ((pt : List ℕ) × (decrypt gcm dek t ≡ some (pt, decrypt_error)))
unfolding encrypt
decrypt-truncated gcm laws dek prefix src w t zs k seven e s z =
    let e2 = rw k at e in
    let (v, r, same) =
      prepend-written gcm dek prefix laws seven (stream_magic ++ prefix) w
        (encrypt_from gcm (suc (length src)) dek prefix 0 src) e2 in
    elim (split_at (stream_magic ++ prefix) v t zs (same ∙ s)) [
      | inl short ↦
          inl
            (header_none gcm dek t (omega (arith, short, seven, length-append stream_magic prefix)))
      | inr (u, p, q) ↦
          let ends =
            decrypt_from-cut gcm dek prefix laws seven (suc (length src)) (suc (length u)) 0 src u
              zs v r q z (omega arith) (omega arith) in
          inr (
            (decrypt_from gcm (suc (length u)) dek prefix 0 u).0,
            rw p (
                decrypt-header gcm dek prefix u k seven
                ∙ ap (λ e. some ((decrypt_from gcm (suc (length u)) dek prefix 0 u).0, e)) ends),
          )
    ]
