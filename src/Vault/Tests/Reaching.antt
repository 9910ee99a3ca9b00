-- ===== src/Vault/Tests/Reaching.antt =====
-- A vault that steps lead to, and the quota and the blobs of small vaults.
use personal_secure_node.Prelude.{ℕ, ◌≤◌, ◌≡◌, refl, ◌&&◌, pos, none, some, [], ◌∷◌, arith}
use personal_secure_node.Cipher.Tests.{toy, tag, nonce, toy-IsAead}
use personal_secure_node.Blobs.{exists, disk_usage}
use personal_secure_node.Schema.{empty_db}
use personal_secure_node.Schema.References.{IsCounted}
use personal_secure_node.Vault.{Vault, transact}
use personal_secure_node.Vault.Files.{delete_file}
use personal_secure_node.Vault.Import.{ImportCall, import_file}
use personal_secure_node.Vault.Purge.{is_referenced, collect_orphan_blobs, purge_file}
use personal_secure_node.Vault.Quota.{import_file-le-quota, upload_chunk-le-quota}
use personal_secure_node.Vault.Reachable.{created, after, imports_file, deletes_file, purges_file}
use personal_secure_node.Vault.Reachable.Counting.{IsReachable-IsCounted}
use personal_secure_node.Vault.Uploads.{upload_chunk}
use personal_secure_node.Vault.Uploads.Orphans.{collect_orphan_blobs_lem}
use personal_secure_node.Vault.Tests.{db_a, path_a}
use personal_secure_node.Vault.Tests.Removing.{session}

abbrev new_vault : Vault
new_vault = record { db = empty_db; blobs = [] }

abbrev import_a : ImportCall
import_a = record {
  source = some (path_a, 7 ∷ 8 ∷ 7 ∷ []);
  virtual_path = none;
  chunk_size = pos 1;
  now = 10;
  fresh_file_id = 1;
  fresh_version_id = 2;
  nonces = λ n. nonce;
}

-- "a" is imported, deleted and purged
abbrev imported : Vault
imported = (import_file toy import_a new_vault).1

abbrev deleted : Vault
deleted = (transact (delete_file 20 path_a) imported).1

IsReachable-IsCounted_example : IsCounted (purge_file path_a deleted).1.db
IsReachable-IsCounted_example = IsReachable-IsCounted toy (
    after
      (after (after created (imports_file import_a new_vault)) (deletes_file 20 path_a imported))
      (purges_file path_a deleted))

-- The import's first chunk fits, or the chunk of the session; nothing fits after it.
abbrev limited : Vault
limited = record {
  db = record empty_db { quota_bytes = some 50; upload_sessions = session ∷ [] };
  blobs = (66, tag) ∷ [];
}

import_file-le-quota_example : disk_usage (import_file toy import_a limited).1.blobs ≤ 50
unfolding disk_usage
import_file-le-quota_example =
    import_file-le-quota toy toy-IsAead import_a limited 50 (λ i. refl) refl (omega arith)

upload_chunk-le-quota_example :
    disk_usage (upload_chunk toy 5 nonce 9 (pos 0) (7 ∷ []) limited).1.blobs ≤ 50
unfolding disk_usage
upload_chunk-le-quota_example =
    upload_chunk-le-quota toy toy-IsAead 5 nonce 9 (pos 0) (7 ∷ []) limited 50 refl refl
      (omega arith)

-- 66 is counted, 3 is not
abbrev with_orphan : Vault
with_orphan = record { db = db_a; blobs = (66, tag) ∷ (3, tag) ∷ [] }

collect_orphan_blobs_lem_example :
    ((k : ℕ)
      → exists k (collect_orphan_blobs with_orphan).1.blobs
        ≡ (exists k with_orphan.blobs && is_referenced with_orphan.db k))
    × ((collect_orphan_blobs with_orphan).1.db ≡ with_orphan.db)
collect_orphan_blobs_lem_example = collect_orphan_blobs_lem with_orphan
