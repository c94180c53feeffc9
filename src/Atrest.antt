-- ===== src/Atrest.antt =====
-- internal/snapshot/atrest/atrest.go: chunked encryption of an artifact, and the sealed key of one.
-- AES-256-GCM of the standard library is a parameter, and so are the random bytes. A source and a
-- stream are lists of bytes that end cleanly; files, keyfiles and the shredding of a file are left out.
pub mod Chunks
pub mod Stream
pub mod Truncated
pub mod Sealed
mod Tests
use setec.Prelude.{
  ℕ, zero, suc, ◌+◌, ◌-◌, ◌*◌, ◌%◌, ◌^◌, Bool, true, false, Option, none, some, List, [], ◌∷◌, ◌++◌,
  ◌==◌, ◌!=◌, ◌||◌, nat_eq, ltb, length, take, drop, if◌then◌else◌,
}
use setec.Wire.{read_full, put_u32, u32}

infixl 5 ◌>>=◌
abbrev ◌>>=◌ : {A B : Type 0} → Option A → (A → Option B) → Option B
none >>= f = none
some a >>= f = f a

-- Seal and Open of an AEAD: the key, the nonce, the text, and the additional data.
pub record Gcm : Type 0 where
  pub seal : List ℕ → List ℕ → List ℕ → List ℕ → List ℕ
  pub unseal : List ℕ → List ℕ → List ℕ → List ℕ → Option (List ℕ)

abbrev pub key_size : ℕ
key_size = 32

abbrev pub chunk_size : ℕ
chunk_size = 2 ^ 20

abbrev pub nonce_prefix_len : ℕ
nonce_prefix_len = 7

abbrev pub gcm_tag_size : ℕ
gcm_tag_size = 16

abbrev pub gcm_nonce_size : ℕ
gcm_nonce_size = 12

abbrev pub max_ciphertext_chunk : ℕ
max_ciphertext_chunk = chunk_size + gcm_tag_size

-- "SETECAS1" and "SETECDK1".
abbrev pub stream_magic : List ℕ
stream_magic = b'S' ∷ b'E' ∷ b'T' ∷ b'E' ∷ b'C' ∷ b'A' ∷ b'S' ∷ b'1' ∷ []

abbrev pub seal_magic : List ℕ
seal_magic = b'S' ∷ b'E' ∷ b'T' ∷ b'E' ∷ b'C' ∷ b'D' ∷ b'K' ∷ b'1' ∷ []

abbrev pub bytes_eq : List ℕ → List ℕ → Bool
bytes_eq [] [] = true
bytes_eq [] (y ∷ ys) = false
bytes_eq (x ∷ xs) [] = false
bytes_eq (x ∷ xs) (y ∷ ys) = if x == y then bytes_eq xs ys else false

abbrev pub is_empty : List ℕ → Bool
is_empty [] = true
is_empty (b ∷ bs) = false

-- What one read of the source takes, and what it leaves.
unfoldable pub first_chunk : List ℕ → List ℕ
first_chunk src = take chunk_size src

unfoldable pub beyond_chunk : List ℕ → List ℕ
beyond_chunk src = drop chunk_size src

-- The nonce of a chunk, for a prefix of seven bytes.
unfoldable pub chunk_nonce : List ℕ → ℕ → Bool → List ℕ
chunk_nonce prefix counter final = prefix ++ (put_u32 counter ++ (if final then 1 else 0) ∷ [])

-- What Encrypt ends with. `out_of_fuel` is not an error of the code: `encrypt` gives enough.
pub data Encrypted : Type 0 where
  written : List ℕ → Encrypted
  bad_key counter_exhausted out_of_fuel : Encrypted

prepend : List ℕ → Encrypted → Encrypted
prepend bs (written w) = written (bs ++ w)
prepend bs other = other

pub frame : List ℕ → List ℕ
frame ct = put_u32 (length ct) ++ ct

-- What a reader of the stream gets: the plaintext that came before the end, and how it ended.
pub data Ending : Type 0 where
  clean decrypt_error no_fuel : Ending

abbrev pub Plain : Type 0
Plain = List ℕ × Ending

after : List ℕ → Plain → Plain
after pt (rest, e) = (pt ++ rest, e)

-- After a chunk: the end, or what comes next.
read_on : (List ℕ → Plain) → Option (List ℕ × List ℕ) → Plain
unfolding after
read_on next none = ([], decrypt_error)
read_on next (some (pt, rest)) = if is_empty rest then (pt, clean) else after pt (next rest)

module _ (gcm : Gcm) where
  -- The loop of Encrypt over what is left of the source. One read takes a chunk, or what there is.
  pub encrypt_from : ℕ → List ℕ → List ℕ → ℕ → List ℕ → Encrypted
  unfolding chunk_nonce prepend frame
  encrypt_from zero dek prefix counter src = out_of_fuel
  encrypt_from (suc fuel) dek prefix counter src =
      let final = is_empty (beyond_chunk src) in
      let ct = gcm.seal dek (chunk_nonce prefix counter final) (first_chunk src) [] in
      let rest = encrypt_from fuel dek prefix (counter + 1) (beyond_chunk src) in
      if final
      then written (frame ct)
      else if counter == 2 ^ 32 - 1
      then counter_exhausted
      else prepend (frame ct) rest

  -- Encrypt, with the seven random bytes of the nonce prefix.
  unfoldable pub encrypt : List ℕ → List ℕ → List ℕ → Encrypted
  unfolding prepend encrypt_from
  encrypt dek prefix src =
      if length dek != key_size
      then bad_key
      else prepend (stream_magic ++ prefix) (encrypt_from (suc (length src)) dek prefix 0 src)

  -- One chunk of a stream: its plaintext and the rest of the stream.
  pub open_chunk : List ℕ → List ℕ → ℕ → List ℕ × List ℕ → Option (List ℕ × List ℕ)
  open_chunk dek prefix counter (ct, rest) =
      gcm.unseal dek (chunk_nonce prefix counter (is_empty rest)) ct [] >>= λ pt. some (pt, rest)

  chunk_of : List ℕ → List ℕ → ℕ → List ℕ × List ℕ → Option (List ℕ × List ℕ)
  unfolding open_chunk
  chunk_of dek prefix counter (l0 ∷ l1 ∷ l2 ∷ l3 ∷ [], r) =
      let n = u32 l0 l1 l2 l3 in
      if ltb n gcm_tag_size || ltb max_ciphertext_chunk n
      then none
      else read_full n r >>= open_chunk dek prefix counter
  chunk_of dek prefix counter (_, r) = none

  unfoldable pub next_chunk : List ℕ → List ℕ → ℕ → List ℕ → Option (List ℕ × List ℕ)
  unfolding chunk_of
  next_chunk dek prefix counter stream = read_full 4 stream >>= chunk_of dek prefix counter

  -- Read until the end: chunks up to the one that the stream ends with. The counter is a uint32.
  unfoldable pub decrypt_from : ℕ → List ℕ → List ℕ → ℕ → List ℕ → Plain
  unfolding read_on
  decrypt_from zero dek prefix counter stream = ([], no_fuel)
  decrypt_from (suc fuel) dek prefix counter stream =
      read_on (decrypt_from fuel dek prefix ((counter + 1) % 2 ^ 32))
        (next_chunk dek prefix counter stream)

  decrypt_header : List ℕ → Option (List ℕ × List ℕ) → Option Plain
  decrypt_header dek none = none
  decrypt_header dek (some (header, r)) =
      if bytes_eq (take 8 header) stream_magic
      then some (decrypt_from (suc (length r)) dek (drop 8 header) 0 r)
      else none

  -- NewDecryptingReader, and what its reader gives; `none` when there is no reader.
  unfoldable pub decrypt : List ℕ → List ℕ → Option Plain
  unfolding decrypt_header decrypt_from
  decrypt dek stream =
      if length dek != key_size
      then none
      else decrypt_header dek (read_full (8 + nonce_prefix_len) stream)

  -- SealDEK, with the random nonce, and OpenDEK.
  unfoldable pub seal_dek : List ℕ → List ℕ → List ℕ → List ℕ → Option (List ℕ)
  seal_dek kek nonce dek aad =
      if length kek != key_size
      then none
      else some (seal_magic ++ (nonce ++ gcm.seal kek nonce dek aad))

  unfoldable pub open_dek : List ℕ → List ℕ → List ℕ → Option (List ℕ)
  open_dek kek blob aad =
      if length kek != key_size
      then none
      else if ltb (length blob) (8 + gcm_nonce_size + gcm_tag_size)
      then none
      else if bytes_eq (take 8 blob) seal_magic
      then gcm.unseal kek (take gcm_nonce_size (drop 8 blob)) (drop (8 + gcm_nonce_size) blob) aad
      else none
