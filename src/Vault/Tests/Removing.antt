-- ===== src/Vault/Tests/Removing.antt =====
-- Purges, collections and a run of the trash retention.
use personal_secure_node.Prelude.{
  ℕ, ◌*◌, ◌<◌, ◌≡◌, ◌≢◌, refl, Bool, true, false, not, ◌&&◌, none, some, Option, [], ◌∷◌, ok,
  select, find_first, any, latest, sort_by, insert_by, text_eq, uses, arith, ◌==◌,
}
use personal_secure_node.Paths.{normalize_virtual_path}
use personal_secure_node.Blobs.{exists}
use personal_secure_node.Schema.{Db, File, Chunk, UploadSession, opened}
use personal_secure_node.Schema.References.{IsCounted, uses_of}
use personal_secure_node.Schema.Statements.{chunk_by_id}
use personal_secure_node.Vault.{Vault}
use personal_secure_node.Vault.Files.{last_deleted, list_deleted_files}
use personal_secure_node.Vault.Purge.{purge_rows, collect_garbage}
use personal_secure_node.Vault.Settings.{candidates, cutoff, run_trash_retention}
use personal_secure_node.Vault.Settings.Retention.{retention_purges_recent_file}
use personal_secure_node.Vault.Uploads.{session_by_id}
use personal_secure_node.Vault.Uploads.Commit.{commit_upload}
use personal_secure_node.Vault.Uploads.Lost.{garbage_breaks_open_upload}
use personal_secure_node.Vault.Counted.Removal.{purge_rows_lem, other_rows}
use personal_secure_node.Vault.Counted.Garbage.{garbage, collect_garbage_lem}
use personal_secure_node.Vault.Tests.{toy, tag, db_a, file_a, chunk_a, path_a}

-- the file "a" after its deletion
abbrev deleted : File
deleted = record file_a { deleted_at = some 50 }

abbrev trash : Db
trash = record db_a { files = deleted ∷ [] }

trash-IsCounted : IsCounted trash
unfolding chunk_by_id uses find_first
trash-IsCounted = record { counted = λ k. ground arith; keyed = λ k. ground arith }

normalize_a : normalize_virtual_path path_a ≡ ok path_a
unfolding normalize_virtual_path select any text_eq
normalize_a = refl

last_deleted_a : last_deleted path_a trash ≡ some deleted
unfolding last_deleted latest select text_eq
last_deleted_a = refl

purge_rows_lem_example :
    (db1 : Db) × (purge_rows path_a trash ≡ ok (path_a, db1))
    × IsCounted db1
    × (db1.version_chunks ≡ other_rows 1 trash)
    × (db1.files ≡ select (λ (f : File). not (1 == f.id)) trash.files)
    × (db1.versions ≡ select (λ v. not (1 == v.file_id)) trash.versions)
purge_rows_lem_example =
    purge_rows_lem path_a path_a deleted trash trash-IsCounted normalize_a last_deleted_a

-- a chunk without references, which an open upload session holds, beside one in use
abbrev loose : Chunk
loose = record chunk_a { id = 67; ref_count = 0 }

abbrev pub session : UploadSession
session = record {
  id = 9;
  virtual_path = 98 ∷ [];
  expected_size = 1;
  chunk_size = 1;
  idempotency_key = 107 ∷ [];
  state = opened;
  created_at = 40;
  expires_at = 900;
  committed_version_id = none;
}

abbrev uploading : Vault
uploading = record {
  db = record db_a {
    chunks = chunk_a ∷ loose ∷ [];
    upload_sessions = session ∷ [];
    upload_session_chunks =
        record { session_id = 9; ordinal = 0; chunk_id = 67; plain_size = 1; stored_size = 34 }
        ∷ [];
  };
  blobs = (66, tag) ∷ (67, tag) ∷ [];
}

uploading-IsCounted : IsCounted uploading.db
unfolding chunk_by_id uses find_first
uploading-IsCounted = record { counted = λ k. ground arith; keyed = λ k. ground arith }

collect_garbage_lem_example :
    (counts : ℕ × ℕ) × (v1 : Vault) × (collect_garbage uploading ≡ (ok counts, v1))
    × IsCounted v1.db
    × ((k : ℕ)
        → exists k v1.blobs
          ≡ (not (any (λ c. k == c.id) (garbage uploading.db)) && exists k uploading.blobs))
    × ((k : ℕ)
        → 0 < uses_of k uploading.db.version_chunks
        → exists k v1.blobs ≡ exists k uploading.blobs)
    × (v1.db ≡ record uploading.db { chunks = v1.db.chunks })
collect_garbage_lem_example = collect_garbage_lem uploading uploading-IsCounted

garbage_breaks_open_upload_example :
    (counts : ℕ × ℕ) × (v1 : Vault) × (collect_garbage uploading ≡ (ok counts, v1))
    × (exists 67 v1.blobs ≡ false)
    × ((now file version : ℕ) (reply : Option ℕ × Bool)
        → (commit_upload toy now file version 9 v1).0 ≢ ok reply)
unfolding session_by_id find_first any select
garbage_breaks_open_upload_example =
    garbage_breaks_open_upload toy uploading session 67 uploading-IsCounted refl refl refl refl

-- "a" was deleted at the start and, as a new file, once more on the day before the run
abbrev day : ℕ
day = 86400000000

abbrev recent : File
recent = record file_a { id = 6; deleted_at = some (9 * day); current_version_id = none }

abbrev trash_twice : Vault
trash_twice = record {
  db = record trash { files = deleted ∷ recent ∷ []; trash_retention_days = some 5 };
  blobs = (66, tag) ∷ [];
}

trash_twice-IsCounted : IsCounted trash_twice.db
unfolding chunk_by_id uses find_first
trash_twice-IsCounted = record { counted = λ k. ground arith; keyed = λ k. ground arith }

retention_purges_recent_file_example :
    (v1 : Vault) × (bytes : ℕ) × (run_trash_retention (10 * day) true trash_twice
      ≡ (ok (path_a ∷ [], bytes), v1))
    × (v1.db.files ≡ select (λ (f : File). not (6 == f.id)) trash_twice.db.files)
    × (recent ≢ deleted)
unfolding candidates cutoff list_deleted_files last_deleted latest select text_eq sort_by insert_by
retention_purges_recent_file_example =
    retention_purges_recent_file (10 * day) 5 trash_twice deleted recent trash_twice-IsCounted refl
      refl normalize_a refl (omega arith)
