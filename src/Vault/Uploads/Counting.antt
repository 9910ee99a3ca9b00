-- ===== src/Vault/Uploads/Counting.antt =====
-- `commit_upload` and the reference counts.
use personal_secure_node.Prelude.{
  ℕ, ◌≡◌, refl, subst, Bool, Option, some, List, Result, ok, passed, ◌>>=◌, upload_conflict, zero,
  not, ◌||◌, ◌==◌, length, >>=-eq-ok, ok-injective, arith, map, Option-cases, Result-cases, inl,
  inr, ◌⊎◌,
}
use personal_secure_node.Cipher.{Primitives}
use personal_secure_node.Blobs.{Store}
use personal_secure_node.Schema.{Db, UploadSession, UploadChunk}
use personal_secure_node.Schema.Statements.{live_file, insert_event}
use personal_secure_node.Schema.References.{IsCounted, IsCounted-same}
use personal_secure_node.Vault.{Vault}
use personal_secure_node.Vault.Import.{NewVersion, insert_new_version}
use personal_secure_node.Vault.Counted.Kept.{transact-IsCounted}
use personal_secure_node.Vault.Counted.Steps.{insert_new_version-IsCounted}
use personal_secure_node.Vault.Uploads.{
  session_by_id, update_session, session_chunks, require_open_upload, chunk_count,
}
use personal_secure_node.Vault.Uploads.Commit.{
  in_order, piece_of, set_committed, commit_unchanged, record_upload, read_back, commit_open,
  commit_required, commit_upload,
}

set_committed-IsCounted :
    (session_id version_id : ℕ) (db : Db)
    → IsCounted db
    → IsCounted (set_committed session_id version_id db)
unfolding set_committed update_session
set_committed-IsCounted session_id version_id db c = IsCounted-same db _ c refl refl

record_upload-IsCounted :
    (u : UploadSession) (chunks : List UploadChunk) (new : NewVersion) (db : Db)
    (r : (ℕ × Bool) × Db)
    → IsCounted db
    → record_upload u chunks new db ≡ ok r
    → IsCounted r.1
unfolding record_upload
record_upload-IsCounted u chunks new db r c h =
    let (unchanged, e1, h1) =
      >>=-eq-ok (commit_unchanged (live_file u.virtual_path db) new.size new.digest db) _ h in
    elim (Option-cases unchanged) [
      | inl e ↦
          let (q, e2, h2) =
            >>=-eq-ok
              (insert_new_version new (map piece_of chunks) (live_file u.virtual_path db) db) _
              (rw e at h1) in
          subst (λ (p : (ℕ × Bool) × Db). IsCounted p.1) (ok-injective h2)
            (IsCounted-same _ _
              (set_committed-IsCounted u.id new.version_id q.1
                (insert_new_version-IsCounted new _ _ db q c e2))
              (unfold insert_event in refl) (unfold insert_event in refl))
      | inr (id, e) ↦
          subst (λ (p : (ℕ × Bool) × Db). IsCounted p.1) (ok-injective (rw e at h1))
            (set_committed-IsCounted u.id id db c)
    ]

pub require_open_upload-IsCounted :
    (now id : ℕ) (db : Db) → IsCounted db → IsCounted (require_open_upload now id db).1
unfolding require_open_upload update_session
require_open_upload-IsCounted now id db c = IsCounted-same db _ c (ground arith) (ground arith)

module _ (p : Primitives) where
  commit_open-IsCounted :
      (now file version : ℕ) (u : UploadSession) (s : Store) (db : Db) (r : (ℕ × Bool) × Db)
      → IsCounted db
      → commit_open p now file version u s db ≡ ok r
      → IsCounted r.1
  unfolding commit_open
  commit_open-IsCounted now file version u s db r c h =
      let chunks = session_chunks u.id db in
      let h1 =
        passed (not (length chunks == chunk_count u) || not (in_order zero chunks)) upload_conflict
          _ h in
      let (content, e2, h2) = >>=-eq-ok (read_back p chunks s) _ h1 in
      let h3 = passed (not (length content == u.expected_size)) upload_conflict _ h2 in
      record_upload-IsCounted u chunks _ db r c h3

  commit_required-IsCounted :
      (now file version session_id : ℕ) (v : Vault)
      → IsCounted v.db
      → IsCounted (commit_required p now file version session_id v).1.db
  unfolding commit_required
  commit_required-IsCounted now file version session_id v c =
      elim (Result-cases (require_open_upload now session_id v.db).0) [
        | inr (x, e) ↦ rw (e, commit_required) (require_open_upload-IsCounted now session_id v.db c)
        | inl (u, e) ↦ rw (e, commit_required) (transact-IsCounted (body u) v c (kept u))
      ]
    where
      body : UploadSession → Db → Result ((Option ℕ × Bool) × Db)
      body u db = do
        ((id, unchanged), db2) ← commit_open p now file version u v.blobs db
        ok ((some id, unchanged), db2)

      kept : (u : UploadSession) (r : (Option ℕ × Bool) × Db) → body u v.db ≡ ok r → IsCounted r.1
      kept u r h =
          let (q, e1, h1) = >>=-eq-ok (commit_open p now file version u v.blobs v.db) _ h in
          subst (λ (t : (Option ℕ × Bool) × Db). IsCounted t.1) (ok-injective h1)
            (commit_open-IsCounted now file version u v.blobs v.db q c e1)

  commit_upload-cases :
      (now file version session_id : ℕ) (v : Vault)
      → ((commit_upload p now file version session_id v).1 ≡ v)
        ⊎ (commit_upload p now file version session_id v
            ≡ commit_required p now file version session_id v)
  unfolding commit_upload
  commit_upload-cases now file version session_id v =
      elim (Option-cases (session_by_id session_id v.db)) [
        | inl e ↦ inl (ground (arith, e))
        | inr (u, e) ↦ ground (arith, e)
      ]

  -- Whatever the outcome of `commit_upload`, errors included, the counts stay exact.
  pub commit_upload-IsCounted :
      (now file version session_id : ℕ) (v : Vault)
      → IsCounted v.db
      → IsCounted (commit_upload p now file version session_id v).1.db
  commit_upload-IsCounted now file version session_id v c =
      elim (commit_upload-cases now file version session_id v) [
        | inl e ↦ rw e c
        | inr e ↦ rw e (commit_required-IsCounted now file version session_id v c)
      ]
