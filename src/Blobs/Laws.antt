-- ===== src/Blobs/Laws.antt =====
-- What `put` and `delete` do to the chunks that can be read.
use personal_secure_node.Prelude.{
  ℕ, ◌+◌, ◌≡◌, true, false, not, ◌&&◌, none, some, [], ◌∷◌, ok, arith, ◌==◌, if◌then◌else◌, length,
  select, Option-cases, inl, inr,
}
use personal_secure_node.Cipher.{Bytes, Primitives, IsAead, nonce_size, encrypt_chunk}
use personal_secure_node.Cipher.RoundTrip.{decrypt_chunk-encrypt_chunk}
use personal_secure_node.Blobs.{Store, read, exists, disk_usage, delete, put, get}

-- `delete` removes that chunk and no other.
pub read-delete :
    (k j : ℕ) (s : Store) → read j (delete k s).1 ≡ (if k == j then none else read j s)
unfolding delete
read-delete k j s = elim (Option-cases (read k s)) [
  | inl e ↦ rw e (ground (arith, e, absent))
  | inr (b, e) ↦ rw e (kept s)
]
  where
    absent : (k == j) ≡ true → read j s ≡ read k s
    absent h = ground arith

    kept :
        (t : Store) → read j (select (λ x. not (k == x.0)) t) ≡ (if k == j then none else read j t)
    kept [] = ground arith
    kept ((i, b) ∷ t) = ground (arith, kept t)

pub exists-delete : (k j : ℕ) (s : Store) → exists j (delete k s).1 ≡ (not (k == j) && exists j s)
unfolding exists
exists-delete k j s = ground (arith, read-delete k j s)

module _ (p : Primitives) (nonce : Bytes) (plaintext : Bytes) where
  -- A chunk that was there is not written again, and no other chunk is touched.
  pub read-put :
      (k j : ℕ) (s : Store)
      → read j (put p nonce k plaintext s).1 ≡ (
          if j == k && not (exists k s) then some (encrypt_chunk p nonce k plaintext) else read j s)
  unfolding put exists
  read-put k j s = ground arith

  pub exists-put : (k : ℕ) (s : Store) → exists k (put p nonce k plaintext s).1 ≡ true
  unfolding put exists
  exists-put k s = ground arith

  pub exists-put_keeps :
      (k j : ℕ) (s : Store) → exists j s ≡ true → exists j (put p nonce k plaintext s).1 ≡ true
  unfolding put exists
  exists-put_keeps k j s h = ground arith

  -- The directory grows by the stored size if the chunk is new, and not at all if it is not.
  pub disk_usage-put :
      (k : ℕ) (s : Store)
      → let ((stored, created), s') = put p nonce k plaintext s in
        disk_usage s' ≡ (if created then stored else 0) + disk_usage s
  unfolding put disk_usage
  disk_usage-put k s = ground arith

  -- A chunk that is put under its own identifier, and was not there before, reads back.
  pub get-put :
      (s : Store)
      → IsAead p
      → length nonce ≡ nonce_size
      → exists (p.chunk_mac plaintext) s ≡ false
      → get p (p.chunk_mac plaintext) (put p nonce (p.chunk_mac plaintext) plaintext s).1
        ≡ ok plaintext
  unfolding put get exists
  get-put s aead h fresh = ground (arith, decrypt_chunk-encrypt_chunk p aead nonce plaintext h)
