-- ===== src/Vault/Reachable.antt =====
-- A vault in use: one step for each method that writes, and the vaults that steps lead to.
pub mod Methods
pub mod Counting
use personal_secure_node.Prelude.{
  ℕ, Text, ℤ, pos, negsuc, ◌≡◌, refl, sym, subst, ap, Bool, true, false, Option, none, some, List,
  [], ◌∷◌, Result, ok, err, or_raise, ◌>>=◌, >>=-eq-ok, ok-injective, file_not_found_in_vault,
  arith, Option-cases, Result-cases, inl, inr,
}
use personal_secure_node.Paths.{normalize_virtual_path}
use personal_secure_node.Cipher.{Bytes, Primitives}
use personal_secure_node.Schema.{Db, File, empty_db}
use personal_secure_node.Schema.Statements.{chunk_by_id}
use personal_secure_node.Schema.References.{IsCounted, IsCounted-same}
use personal_secure_node.Vault.{Vault, transact}
use personal_secure_node.Vault.Directories.{create_directory}
use personal_secure_node.Vault.Files.{move_file, delete_file, restore_file, last_deleted}
use personal_secure_node.Vault.Moves.{move_files}
use personal_secure_node.Vault.Moves.Kept.{move_files_same}
use personal_secure_node.Vault.Import.{
  ImportCall, check_import, import_content, import_file, record_version,
}
use personal_secure_node.Vault.Versions.{restore_version}
use personal_secure_node.Vault.Purge.{purge_rows, purge_file, collect_garbage, collect_orphan_blobs}
use personal_secure_node.Vault.Settings.{
  set_quota, set_trash_retention, purge_candidates, run_trash_retention,
}
use personal_secure_node.Vault.Shares.{
  create_share_link, revoke_share_link, shared_download_manifest,
}
use personal_secure_node.Vault.Uploads.{
  UploadCall, create_upload, upload_chunk, require_open_upload, upload_to_session,
  store_upload_chunk, abort_session, abort_upload, cleanup_uploads,
}
use personal_secure_node.Vault.Uploads.Commit.{commit_upload}
use personal_secure_node.Vault.Uploads.Counting.{
  commit_upload-IsCounted, require_open_upload-IsCounted,
}
use personal_secure_node.Vault.Uploads.Orphans.{collect_orphan_blobs_lem}
use personal_secure_node.Vault.Counted.Kept
use personal_secure_node.Vault.Counted.Kept.{transact-IsCounted, transact_same, abort_session_same}
use personal_secure_node.Vault.Counted.Steps.{record_version-IsCounted, restore_version-IsCounted}
use personal_secure_node.Vault.Counted.Removal.{purge_rows_lem}
use personal_secure_node.Vault.Counted.Garbage.{collect_garbage_lem}

-- a setting is written in a transaction of its own
abbrev pub setting : (Db → Result Db) → Db → Result (Unit {0} × Db)
setting write db = do db1 ← write db; ok (tt, db1)

-- one call of a method that writes, with any arguments, whether it succeeds or raises
pub data Step (p : Primitives) : Vault → Vault → Type 0 where
  creates_directory :
      (now : ℕ) (path : Text) (v : Vault) → Step p v (transact (create_directory now path) v).1
  moves_file :
      (now : ℕ) (source destination : Text) (v : Vault)
      → Step p v (transact (move_file now source destination) v).1
  moves_files :
      (now : ℕ) (temporary : ℕ → Text) (moves : List (Text × Text)) (v : Vault)
      → Step p v (transact (move_files now temporary moves) v).1
  deletes_file :
      (now : ℕ) (path : Text) (v : Vault) → Step p v (transact (delete_file now path) v).1
  restores_file :
      (now : ℕ) (path : Text) (v : Vault) → Step p v (transact (restore_file now path) v).1
  imports_file : (call : ImportCall) (v : Vault) → Step p v (import_file p call v).1
  restores_version :
      (now fresh : ℕ) (path : Text) (version_id : ℕ) (v : Vault)
      → Step p v (transact (restore_version now fresh path version_id) v).1
  purges_file : (path : Text) (v : Vault) → Step p v (purge_file path v).1
  collects_garbage : (v : Vault) → Step p v (collect_garbage v).1
  collects_orphans : (v : Vault) → Step p v (collect_orphan_blobs v).1
  sets_quota : (quota : Option ℤ) (v : Vault) → Step p v (transact (setting (set_quota quota)) v).1
  sets_retention :
      (days : Option ℤ) (v : Vault) → Step p v (transact (setting (set_trash_retention days)) v).1
  runs_retention :
      (now : ℕ) (apply : Bool) (v : Vault) → Step p v (run_trash_retention now apply v).1
  shares :
      (hash : ℕ → ℕ) (now id token : ℕ) (path : Text) (ttl : ℤ) (limit : Option ℤ) (v : Vault)
      → Step p v (transact (create_share_link hash now id token path ttl limit) v).1
  revokes : (now id : ℕ) (v : Vault) → Step p v (transact (revoke_share_link now id) v).1
  downloads :
      (hash : ℕ → ℕ) (now token : ℕ) (v : Vault)
      → Step p v (transact (shared_download_manifest hash now token) v).1
  creates_upload : (call : UploadCall) (v : Vault) → Step p v (transact (create_upload call) v).1
  uploads_chunk :
      (now : ℕ) (nonce : Bytes) (id : ℕ) (ordinal : ℤ) (plaintext : Bytes) (v : Vault)
      → Step p v (upload_chunk p now nonce id ordinal plaintext v).1
  commits_upload :
      (now file version id : ℕ) (v : Vault) → Step p v (commit_upload p now file version id v).1
  aborts_upload : (id : ℕ) (v : Vault) → Step p v (abort_upload id v).1
  cleans_uploads : (now : ℕ) (v : Vault) → Step p v (cleanup_uploads now v).1

pub data IsReachable (p : Primitives) : Vault → Type 0 where
  created : IsReachable p (record { db = empty_db; blobs = [] })
  after : {v w : Vault} → IsReachable p v → Step p v w → IsReachable p w
