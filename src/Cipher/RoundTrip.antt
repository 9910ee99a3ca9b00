-- ===== src/Cipher/RoundTrip.antt =====
-- `encrypt_chunk` and `decrypt_chunk` of psn_drive/crypto.py together.
use personal_secure_node.Prelude.{
  ℕ, ◌+◌, ◌≤◌, ◌≡◌, false, ◌++◌, ok, arith, ltb, ==_refl, length, length-append, take, drop,
  take-length_append, drop-length_append, starts_with-append,
}
use personal_secure_node.Cipher.{
  Bytes, Primitives, IsAead, encrypt_chunk, decrypt_chunk, blob_magic, nonce_size, blob_overhead,
}

le→ltb : (a b : ℕ) → b ≤ a → ltb a b ≡ false
le→ltb a b h = ground arith

module _ (p : Primitives) (aead : IsAead p) where
  -- A blob is the plaintext's length and `BLOB_OVERHEAD` long.
  pub length-encrypt_chunk :
      (nonce : Bytes) (chunk_id : ℕ) (plaintext : Bytes)
      → length nonce ≡ nonce_size
      → length (encrypt_chunk p nonce chunk_id plaintext) ≡ length plaintext + blob_overhead
  unfolding encrypt_chunk
  length-encrypt_chunk nonce chunk_id plaintext h = omega (
    arith,
    h,
    length-append nonce (p.seal nonce plaintext chunk_id),
    aead.length-seal nonce plaintext chunk_id,
  )

  -- Under the plaintext's own identifier, decryption gives the plaintext back.
  pub decrypt_chunk-encrypt_chunk :
      (nonce plaintext : Bytes)
      → length nonce ≡ nonce_size
      → decrypt_chunk p
          (p.chunk_mac plaintext)
          (encrypt_chunk p nonce (p.chunk_mac plaintext) plaintext)
        ≡ ok plaintext
  unfolding decrypt_chunk encrypt_chunk
  decrypt_chunk-encrypt_chunk nonce plaintext h =
      rw (long, starts_with-append blob_magic _, take_nonce, drop_nonce, aead.unseal-seal)
        (rw (==_refl (p.chunk_mac plaintext)))
    where
      sealed : Bytes
      sealed = p.seal nonce plaintext (p.chunk_mac plaintext)

      take_nonce : take nonce_size (nonce ++ sealed) ≡ nonce
      take_nonce = rw h at (take-length_append nonce sealed)

      drop_nonce : drop nonce_size (nonce ++ sealed) ≡ sealed
      drop_nonce = rw h at (drop-length_append nonce sealed)

      long :
          ltb (length (encrypt_chunk p nonce (p.chunk_mac plaintext) plaintext)) blob_overhead
          ≡ false
      long =
          le→ltb _ _ (omega (arith, length-encrypt_chunk nonce (p.chunk_mac plaintext) plaintext h))

-- What decrypts has the identifier that was asked for, whatever the blob and the cipher.
pub chunk_mac-decrypt_chunk :
    (p : Primitives) (chunk_id : ℕ) (blob plaintext : Bytes)
    → decrypt_chunk p chunk_id blob ≡ ok plaintext
    → p.chunk_mac plaintext ≡ chunk_id
unfolding decrypt_chunk
chunk_mac-decrypt_chunk p chunk_id blob plaintext h = ground arith
