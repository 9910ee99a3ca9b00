-- ===== src/Vault/Quota.antt =====
-- The quota and the size of the directory of blobs, in `import_file` and `upload_chunk`.
use personal_secure_node.Prelude.{
  ℕ, zero, suc, Text, ℤ, pos, negsuc, to_ℕ, ◌+◌, ◌≤◌, ◌≡◌, ◌⊎◌, refl, Bool, not, ◌&&◌, some, List,
  [], ◌∷◌, ok, err, quota_exceeded, arith, ltb, if◌then◌else◌, length, Bool-cases, Result-cases,
  inl, inr,
}
use personal_secure_node.Cipher.{Bytes, Primitives, IsAead, nonce_size, blob_overhead}
use personal_secure_node.Cipher.RoundTrip.{length-encrypt_chunk}
use personal_secure_node.Blobs.{Store, exists, disk_usage, put}
use personal_secure_node.Schema.{UploadSession}
use personal_secure_node.Vault.{Vault}
use personal_secure_node.Vault.Import.{
  Piece, ImportCall, store_chunk, store_chunks, read_chunks, import_content, check_import,
  import_file,
}
use personal_secure_node.Vault.Uploads.{
  require_open_upload, store_upload_chunk, upload_to_session, upload_chunk,
}

module _ (p : Primitives) (aead : IsAead p) where
  -- the directory and the reply after a `put`, by whether the chunk was there
  put_lem :
      (nonce : Bytes) (k : ℕ) (plaintext : Bytes) (s : Store)
      → length nonce ≡ nonce_size
      → let grown = if exists k s then 0 else length plaintext + blob_overhead in
        let ((stored, created), s') = put p nonce k plaintext s in
        (disk_usage s' ≡ grown + disk_usage s) × ((if created then stored else 0) ≡ grown)
  unfolding put exists disk_usage
  put_lem nonce k plaintext s h = ground (arith, length-encrypt_chunk p aead nonce k plaintext h)

  -- A chunk of an import is refused, or it is stored and the directory stays within the quota.
  store_chunk-cases :
      (nonce : Bytes) (quota n : ℕ) (t : Bytes) (s : Store)
      → length nonce ≡ nonce_size
      → disk_usage s ≤ quota
      → (store_chunk p nonce (some quota) (disk_usage s) n t s ≡ (err quota_exceeded, s))
        ⊎ ((r : Piece × Bool) × (s' : Store) × (store_chunk p nonce
                (some quota)
                (disk_usage s)
                n
                t
                s
              ≡ (ok (r, disk_usage s'), s'))
            × (disk_usage s' ≤ quota))
  unfolding store_chunk
  store_chunk-cases nonce quota n t s h fits =
      let stored = put p nonce (p.chunk_mac t) t s in
      let (usage, size) = put_lem nonce (p.chunk_mac t) t s h in
      elim (Bool-cases
        (not (exists (p.chunk_mac t) s) && ltb quota (disk_usage s + (length t + blob_overhead)))) [
          | inl e ↦ inl (rw e refl)
          | inr e ↦ inr (
            (
              record {
                ordinal = n;
                chunk_id = p.chunk_mac t;
                plain_size = length t;
                stored_size = stored.0.0;
              },
              stored.0.1,
            ),
            stored.1,
            rw e (ground (arith, usage, size)),
            ground (arith, e, usage),
          )
        ]

  -- The loop that stores the chunks, also if it stops at a chunk that does not fit.
  store_chunks-le-quota :
      (nonces : ℕ → Bytes) (quota n : ℕ) (ts : List Bytes) (s : Store)
      → ((i : ℕ) → length (nonces i) ≡ nonce_size)
      → disk_usage s ≤ quota
      → disk_usage (store_chunks p nonces (some quota) (disk_usage s) n ts s).1 ≤ quota
  unfolding store_chunks
  store_chunks-le-quota nonces quota n [] s h fits = fits
  store_chunks-le-quota nonces quota n (t ∷ ts) s h fits =
      elim (store_chunk-cases (nonces n) quota n t s (h n) fits) [
        | inl e ↦ rw (e, store_chunks) (rw e fits)
        | inr (r, s', e, fits') ↦
            rw (e, store_chunks) (rw e (store_chunks-le-quota nonces quota (suc n) ts s' h fits'))
      ]

  import_content-le-quota :
      (call : ImportCall) (path : Text) (content : Bytes) (v : Vault) (quota : ℕ)
      → ((i : ℕ) → length (call.nonces i) ≡ nonce_size)
      → v.db.quota_bytes ≡ some quota
      → disk_usage v.blobs ≤ quota
      → disk_usage (import_content p call path content v).1.blobs ≤ quota
  unfolding import_content
  import_content-le-quota call path content v quota h limit fits = ground (
    arith,
    store_chunks-le-quota call.nonces quota zero
        (read_chunks (length content) (to_ℕ call.chunk_size) content) v.blobs h fits,
    limit,
  )

  -- An import that starts with a directory of blobs within the quota leaves it within the quota,
  -- whether it succeeds or fails, also if it stops at a chunk that does not fit.
  pub import_file-le-quota :
      (call : ImportCall) (v : Vault) (quota : ℕ)
      → ((i : ℕ) → length (call.nonces i) ≡ nonce_size)
      → v.db.quota_bytes ≡ some quota
      → disk_usage v.blobs ≤ quota
      → disk_usage (import_file p call v).1.blobs ≤ quota
  unfolding import_file
  import_file-le-quota call v quota h limit fits = elim (Result-cases (check_import p call)) [
    | inr (x, e) ↦ rw (e, import_file) fits
    | inl ((path, content), e) ↦
        rw (e, import_file) (import_content-le-quota call path content v quota h limit fits)
  ]

  store_upload_chunk-le-quota :
      (nonce : Bytes) (session_id ordinal : ℕ) (plaintext : Bytes) (v : Vault) (quota : ℕ)
      → length nonce ≡ nonce_size
      → v.db.quota_bytes ≡ some quota
      → disk_usage v.blobs ≤ quota
      → disk_usage (store_upload_chunk p nonce session_id ordinal plaintext v).1.blobs ≤ quota
  unfolding store_upload_chunk
  store_upload_chunk-le-quota nonce session_id ordinal plaintext v quota h limit fits =
      ground (arith, h, limit, put_lem nonce (p.chunk_mac plaintext) plaintext v.blobs h)

  upload_to_session-le-quota :
      (nonce : Bytes) (u : UploadSession) (ordinal : ℕ) (plaintext : Bytes) (v : Vault) (quota : ℕ)
      → length nonce ≡ nonce_size
      → v.db.quota_bytes ≡ some quota
      → disk_usage v.blobs ≤ quota
      → disk_usage (upload_to_session p nonce u ordinal plaintext v).1.blobs ≤ quota
  unfolding upload_to_session
  upload_to_session-le-quota nonce u ordinal plaintext v quota h limit fits =
      ground (arith, store_upload_chunk-le-quota nonce u.id ordinal plaintext v quota h limit fits)

  -- An uploaded chunk leaves a directory of blobs that is within the quota within the quota, whether
  -- the call succeeds or fails.
  pub upload_chunk-le-quota :
      (now : ℕ) (nonce : Bytes) (session_id : ℕ) (ordinal : ℤ) (plaintext : Bytes) (v : Vault)
      (quota : ℕ)
      → length nonce ≡ nonce_size
      → v.db.quota_bytes ≡ some quota
      → disk_usage v.blobs ≤ quota
      → disk_usage (upload_chunk p now nonce session_id ordinal plaintext v).1.blobs ≤ quota
  unfolding upload_chunk
  upload_chunk-le-quota now nonce session_id (negsuc n) plaintext v quota h limit fits = fits
  upload_chunk-le-quota now nonce session_id (pos n) plaintext v quota h limit fits =
      elim (Result-cases (require_open_upload now session_id v.db).0) [
        | inr (x, e) ↦ rw (e, upload_chunk) fits
        | inl (u, e) ↦
            rw (e, upload_chunk)
              (upload_to_session-le-quota nonce u n plaintext v quota h limit fits)
      ]
