-- ===== src/Atrest/Stream.antt =====
-- The round trip of a whole stream.
use setec.Prelude.{ℕ, suc, ◌^◌, ◌≤◌, ◌≡◌, refl, ap, ◌∙◌, some, List, ◌++◌, length, arith}
use setec.Wire.{read_full}
use setec.Wire.Laws.{read_full-append}
use setec.Atrest.{
  Gcm, key_size, nonce_prefix_len, stream_magic, written, prepend, clean, encrypt, decrypt,
  decrypt_from, decrypt_header,
}
use setec.Atrest.Chunks.{GcmLaws, encrypt_from-Reads}

-- A header that was written is read back, and leaves the chunks.
pub decrypt-header :
    (gcm : Gcm) (dek prefix w : List ℕ)
    → length dek ≡ key_size
    → length prefix ≡ nonce_prefix_len
    → decrypt gcm dek (stream_magic ++ (prefix ++ w))
      ≡ some (decrypt_from gcm (suc (length w)) dek prefix 0 w)
unfolding decrypt decrypt_header read_full
decrypt-header gcm dek prefix w k seven =
    let seven_read = rw seven at (read_full-append prefix w) in rw (k, seven_read) refl

-- Whatever the key of 32 bytes and the nonce prefix of seven, a source of up to 2^52 bytes is encrypted,
-- and the stream is read back as that source, to a clean end.
pub decrypt-encrypt :
    (gcm : Gcm) (laws : GcmLaws gcm) (dek prefix src : List ℕ)
    → length dek ≡ key_size
    → length prefix ≡ nonce_prefix_len
    → length src ≤ 2 ^ 52
    → (w : List ℕ) × (encrypt gcm dek prefix src ≡ written w)
      × (decrypt gcm dek w ≡ some (src, clean))
unfolding encrypt prepend
decrypt-encrypt gcm laws dek prefix src k seven l =
    let (w, e, r) =
      encrypt_from-Reads gcm dek prefix laws seven (suc (length src)) 0 src (omega arith)
        (omega (arith, l)) (omega arith) in
    (
      stream_magic ++ (prefix ++ w),
      rw (k, e) refl,
      decrypt-header gcm dek prefix w k seven ∙ ap some (r.0 (suc (length w)) (omega arith)),
    )
