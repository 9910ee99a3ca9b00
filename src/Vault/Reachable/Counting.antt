-- ===== src/Vault/Reachable/Counting.antt =====
-- The reference counts of reachable vaults.
use personal_secure_node.Prelude.{
  ◌≡◌, subst, none, some, Result, ok, >>=-eq-ok, ok-injective, arith, find_first, uses,
}
use personal_secure_node.Cipher.{Primitives}
use personal_secure_node.Schema.{Db}
use personal_secure_node.Schema.Statements.{chunk_by_id}
use personal_secure_node.Schema.References.{IsCounted}
use personal_secure_node.Vault.{Vault, transact}
use personal_secure_node.Vault.Directories.{create_directory}
use personal_secure_node.Vault.Files.{move_file, delete_file, restore_file}
use personal_secure_node.Vault.Moves.{move_files}
use personal_secure_node.Vault.Moves.Kept.{move_files_same}
use personal_secure_node.Vault.Versions.{restore_version}
use personal_secure_node.Vault.Settings.{set_quota, set_trash_retention}
use personal_secure_node.Vault.Shares.{
  create_share_link, revoke_share_link, shared_download_manifest,
}
use personal_secure_node.Vault.Uploads.{create_upload}
use personal_secure_node.Vault.Uploads.Counting.{commit_upload-IsCounted}
use personal_secure_node.Vault.Reachable.{
  Step, IsReachable, setting, creates_directory, moves_file, moves_files, deletes_file,
  restores_file, imports_file, restores_version, purges_file, collects_garbage, collects_orphans,
  sets_quota, sets_retention, runs_retention, shares, revokes, downloads, creates_upload,
  uploads_chunk, commits_upload, aborts_upload, cleans_uploads, created, after,
}
use personal_secure_node.Vault.Counted.Kept
use personal_secure_node.Vault.Counted.Kept.{
  SameChunks, transact-IsCounted, transact_same, abort_session_same,
}
use personal_secure_node.Vault.Counted.Steps.{restore_version-IsCounted}
use personal_secure_node.Vault.Reachable.Methods.{
  collect_garbage-IsCounted, purge_file-IsCounted, run_trash_retention-IsCounted,
  import_file-IsCounted, upload_chunk-IsCounted, abort_upload-IsCounted, cleanup_uploads-IsCounted,
  collect_orphan_blobs-IsCounted,
}

module _ (p : Primitives) where
  setting-IsCounted :
      (write : Db → Result Db) (v : Vault)
      → IsCounted v.db
      → ((db : Db) → write v.db ≡ ok db → SameChunks v.db db)
      → IsCounted (transact (setting write) v).1.db
  setting-IsCounted write v c same = transact_same (setting write) v c (λ r h.
      let (db1, e1, h1) = >>=-eq-ok (write v.db) _ h in
      subst (λ (q : Unit {0} × Db). SameChunks v.db q.1) (ok-injective h1) (same db1 e1))

  Step-IsCounted : {v w : Vault} → Step p v w → IsCounted v.db → IsCounted w.db
  unfolding set_quota set_trash_retention
  Step-IsCounted (creates_directory now path v) c =
      transact_same (create_directory now path) v c (Kept.create_directory_same now path v.db)
  Step-IsCounted (moves_file now source destination v) c =
      transact_same (move_file now source destination) v c
        (Kept.move_file_same now source destination v.db)
  Step-IsCounted (moves_files now temporary moves v) c =
      transact_same (move_files now temporary moves) v c (move_files_same now temporary moves v.db)
  Step-IsCounted (deletes_file now path v) c =
      transact_same (delete_file now path) v c (Kept.delete_file_same now path v.db)
  Step-IsCounted (restores_file now path v) c =
      transact_same (restore_file now path) v c (Kept.restore_file_same now path v.db)
  Step-IsCounted (imports_file call v) c = import_file-IsCounted p call v c
  Step-IsCounted (restores_version now fresh path version_id v) c =
      transact-IsCounted (restore_version now fresh path version_id) v c
        (λ r h. restore_version-IsCounted now fresh path version_id v.db r c h)
  Step-IsCounted (purges_file path v) c = purge_file-IsCounted path v c
  Step-IsCounted (collects_garbage v) c = collect_garbage-IsCounted v c
  Step-IsCounted (collects_orphans v) c = collect_orphan_blobs-IsCounted p v c
  Step-IsCounted (sets_quota none v) c =
      setting-IsCounted (set_quota none) v c (λ db h. (ground (arith, h), ground (arith, h)))
  Step-IsCounted (sets_quota (some q) v) c =
      setting-IsCounted (set_quota (some q)) v c (λ db h. (ground (arith, h), ground (arith, h)))
  Step-IsCounted (sets_retention none v) c =
      setting-IsCounted (set_trash_retention none) v c
        (λ db h. (ground (arith, h), ground (arith, h)))
  Step-IsCounted (sets_retention (some n) v) c =
      setting-IsCounted (set_trash_retention (some n)) v c
        (λ db h. (ground (arith, h), ground (arith, h)))
  Step-IsCounted (runs_retention now apply v) c = run_trash_retention-IsCounted now apply v c
  Step-IsCounted (shares hash now id token path ttl limit v) c =
      transact_same (create_share_link hash now id token path ttl limit) v c
        (Kept.create_share_link_same hash now id token path ttl limit v.db)
  Step-IsCounted (revokes now id v) c =
      transact_same (revoke_share_link now id) v c (Kept.revoke_share_link_same now id v.db)
  Step-IsCounted (downloads hash now token v) c =
      transact_same (shared_download_manifest hash now token) v c
        (Kept.shared_download_manifest_same hash now token v.db)
  Step-IsCounted (creates_upload call v) c =
      transact_same (create_upload call) v c (Kept.create_upload_same call v.db)
  Step-IsCounted (uploads_chunk now nonce id ordinal plaintext v) c =
      upload_chunk-IsCounted p now nonce id ordinal plaintext v c
  Step-IsCounted (commits_upload now file version id v) c =
      commit_upload-IsCounted p now file version id v c
  Step-IsCounted (aborts_upload id v) c = abort_upload-IsCounted p id v c
  Step-IsCounted (cleans_uploads now v) c = cleanup_uploads-IsCounted p now v c

  -- Whatever calls of the methods that write are made on a new vault, in whatever order and with
  -- whatever outcome: the count of every chunk is the number of rows of `version_chunks` that name
  -- it, and no chunk has two rows.
  pub IsReachable-IsCounted : {v : Vault} → IsReachable p v → IsCounted v.db
  unfolding chunk_by_id find_first uses
  IsReachable-IsCounted created = record { counted = λ k. ground arith; keyed = λ k. ground arith }
  IsReachable-IsCounted (after r step) = Step-IsCounted step (IsReachable-IsCounted r)
