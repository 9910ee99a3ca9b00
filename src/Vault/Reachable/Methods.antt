-- ===== src/Vault/Reachable/Methods.antt =====
-- The methods of several steps and the reference counts.
use personal_secure_node.Prelude.{
  ℕ, zero, Text, ℤ, pos, negsuc, to_ℕ, length, ◌≡◌, refl, sym, subst, ◌∙◌, Bool, List, [], ◌∷◌,
  Result, ok, or_raise, >>=-eq-ok, ok-injective, file_not_found_in_vault, arith, Option-cases,
  Result-cases, inl, inr,
}
use personal_secure_node.Paths.{normalize_virtual_path}
use personal_secure_node.Cipher.{Bytes, Primitives}
use personal_secure_node.Blobs.{Store, disk_usage}
use personal_secure_node.Schema.{Db, File, UploadSession}
use personal_secure_node.Schema.References.{IsCounted, IsCounted-same}
use personal_secure_node.Vault.{Vault}
use personal_secure_node.Vault.Files.{last_deleted}
use personal_secure_node.Vault.Import.{
  Piece, NewVersion, ImportCall, read_chunks, store_chunks, check_import, import_content,
  import_file, record_version,
}
use personal_secure_node.Vault.Purge.{purge_rows, purge_file, collect_garbage, collect_orphan_blobs}
use personal_secure_node.Vault.Settings.{cutoff, candidates, purge_candidates, run_trash_retention}
use personal_secure_node.Vault.Uploads.{
  upload_chunk, require_open_upload, upload_to_session, store_upload_chunk, abort_session,
  abort_upload, cleanup_uploads,
}
use personal_secure_node.Vault.Uploads.Counting.{require_open_upload-IsCounted}
use personal_secure_node.Vault.Uploads.Orphans.{collect_orphan_blobs_lem}
use personal_secure_node.Vault.Counted.Kept.{SameChunks, transact-IsCounted, abort_session_same}
use personal_secure_node.Vault.Counted.Steps.{record_version-IsCounted}
use personal_secure_node.Vault.Counted.Removal.{purge_rows_lem}
use personal_secure_node.Vault.Counted.Garbage.{collect_garbage_lem}

purge_rows-IsCounted :
    (raw : Text) (db : Db) (r : Text × Db) → IsCounted db → purge_rows raw db ≡ ok r → IsCounted r.1
unfolding purge_rows
purge_rows-IsCounted raw db r c h =
    let (path, e1, h1) = >>=-eq-ok (normalize_virtual_path raw) _ h in
    let (row, e2, h2) = >>=-eq-ok (or_raise (last_deleted path db) file_not_found_in_vault) _ h1 in
    let (db1, e3, c1, _, _, _) = purge_rows_lem raw path row db c e1 (ground (arith, e2)) in
    subst (λ (q : Text × Db). IsCounted q.1) (ok-injective (sym e3 ∙ h)) c1

pub collect_garbage-IsCounted : (v : Vault) → IsCounted v.db → IsCounted (collect_garbage v).1.db
collect_garbage-IsCounted v c =
    let (counts, v1, e, c1, _, _, _) = collect_garbage_lem v c in rw e c1

pub purge_file-IsCounted :
    (raw : Text) (v : Vault) → IsCounted v.db → IsCounted (purge_file raw v).1.db
unfolding purge_file
purge_file-IsCounted raw v c = elim (Result-cases (purge_rows raw v.db)) [
  | inr (x, e) ↦ rw (e, purge_file) c
  | inl (r, e) ↦
      rw (e, purge_file)
        (collect_garbage-IsCounted (record v { db = r.1 }) (purge_rows-IsCounted raw v.db r c e))
]

pub purge_candidates-IsCounted :
    (files : List File) (v : Vault) → IsCounted v.db → IsCounted (purge_candidates files v).1.db
unfolding purge_candidates
purge_candidates-IsCounted [] v c = c
purge_candidates-IsCounted (f ∷ fs) v c =
    let c1 = purge_file-IsCounted f.virtual_path v c in
    let c2 = purge_candidates-IsCounted fs (purge_file f.virtual_path v).1 c1 in
    elim (Result-cases (purge_file f.virtual_path v).0) [
      | inr (x, e) ↦ rw (e, purge_candidates) c1
      | inl (r, e) ↦ rw (e, purge_candidates) c2
    ]

pub run_trash_retention-IsCounted :
    (now : ℕ) (apply : Bool) (v : Vault)
    → IsCounted v.db
    → IsCounted (run_trash_retention now apply v).1.db
unfolding run_trash_retention
run_trash_retention-IsCounted now apply v c = elim (Option-cases v.db.trash_retention_days) [
  | inl e ↦ ground (arith, e, c)
  | inr (days, e) ↦
      ground (arith, e, c, purge_candidates-IsCounted (candidates (cutoff now days) v.db) v c)
]

module _ (p : Primitives) where
  pub import_content-IsCounted :
      (call : ImportCall) (path : Text) (content : Bytes) (v : Vault)
      → IsCounted v.db
      → IsCounted (import_content p call path content v).1.db
  unfolding import_content
  import_content-IsCounted call path content v c = elim (Result-cases stored.0) [
    | inr (x, e) ↦ rw (e, import_content) c
    | inl (r, e) ↦
        rw (e, import_content)
          (transact-IsCounted (record_version (new r)) (record v { blobs = stored.1 }) c
            (λ q h. record_version-IsCounted (new r) v.db q c h))
  ]
    where
      stored : Result (List (Piece × Bool)) × Store
      stored =
          store_chunks p call.nonces v.db.quota_bytes (disk_usage v.blobs) zero
            (read_chunks (length content) (to_ℕ call.chunk_size) content) v.blobs

      new : List (Piece × Bool) → NewVersion
      new records = record {
        fresh_file_id = call.fresh_file_id;
        version_id = call.fresh_version_id;
        now = call.now;
        virtual_path = path;
        size = length content;
        digest = p.sha256 content;
        records = records;
      }

  pub import_file-IsCounted :
      (call : ImportCall) (v : Vault) → IsCounted v.db → IsCounted (import_file p call v).1.db
  unfolding import_file
  import_file-IsCounted call v c = elim (Result-cases (check_import p call)) [
    | inr (x, e) ↦ rw (e, import_file) c
    | inl ((path, content), e) ↦
        rw (e, import_file) (import_content-IsCounted call path content v c)
  ]

  sent :
      (nonce : Bytes) (u : UploadSession) (n : ℕ) (plaintext : Bytes) (v : Vault)
      → SameChunks v.db (upload_to_session p nonce u n plaintext v).1.db
  unfolding upload_to_session store_upload_chunk
  sent nonce u n plaintext v = (ground arith, ground arith)

  pub upload_chunk-IsCounted :
      (now : ℕ) (nonce : Bytes) (id : ℕ) (ordinal : ℤ) (plaintext : Bytes) (v : Vault)
      → IsCounted v.db
      → IsCounted (upload_chunk p now nonce id ordinal plaintext v).1.db
  unfolding upload_chunk
  upload_chunk-IsCounted now nonce id (negsuc n) plaintext v c = c
  upload_chunk-IsCounted now nonce id (pos n) plaintext v c =
      elim (Result-cases (require_open_upload now id v.db).0) [
        | inr (x, e) ↦ rw (e, upload_chunk) (require_open_upload-IsCounted now id v.db c)
        | inl (u, e) ↦
            rw (e, upload_chunk)
              (IsCounted-same v.db _ c (sent nonce u n plaintext v).0
                (sent nonce u n plaintext v).1)
      ]

  pub abort_upload-IsCounted :
      (id : ℕ) (v : Vault) → IsCounted v.db → IsCounted (abort_upload id v).1.db
  unfolding abort_upload
  abort_upload-IsCounted id v c = elim (Result-cases (abort_session id v.db)) [
    | inr (x, e) ↦ rw (e, abort_upload) c
    | inl (db1, e) ↦
        let (a, b) = abort_session_same id v.db db1 e in
        rw (e, abort_upload) (IsCounted-same v.db _ c a b)
  ]

  pub cleanup_uploads-IsCounted :
      (now : ℕ) (v : Vault) → IsCounted v.db → IsCounted (cleanup_uploads now v).1.db
  unfolding cleanup_uploads
  cleanup_uploads-IsCounted now v c = IsCounted-same v.db _ c refl refl

  pub collect_orphan_blobs-IsCounted :
      (v : Vault) → IsCounted v.db → IsCounted (collect_orphan_blobs v).1.db
  collect_orphan_blobs-IsCounted v c = rw ((collect_orphan_blobs_lem v).1) c
