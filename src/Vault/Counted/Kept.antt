-- ===== src/Vault/Counted/Kept.antt =====
-- The methods that do not touch the tables of chunks.
use personal_secure_node.Prelude.{
  ℕ, Text, ℤ, ◌≡◌, Bool, Option, List, Result, ok, arith, Result-cases, inl, inr,
}
use personal_secure_node.Schema.{Db, ShareLink, UploadSession, UploadChunk, Version, VersionChunk}
use personal_secure_node.Schema.Statements.{
  set_path, set_deleted_at, clear_deleted_at, insert_event,
}
use personal_secure_node.Schema.References.{IsCounted, IsCounted-same}
use personal_secure_node.Vault.{Vault, transact}
use personal_secure_node.Vault.Directories.{ensure_directories, create_directory}
use personal_secure_node.Vault.Files.{move_file, delete_file, restore_file}
use personal_secure_node.Vault.Shares.{
  insert_share_link, create_share_link, revoke_share_link, count_download, shared_download_manifest,
}
use personal_secure_node.Vault.Uploads.{
  UploadCall, create_upload, reuse_session, update_session, abort_session,
}

-- the tables of chunks are the same
abbrev pub SameChunks : Db → Db → Type 0
SameChunks db db' = (db'.chunks ≡ db.chunks) × (db'.version_chunks ≡ db.version_chunks)

pub set_path_same :
    (path : Text) (id : ℕ) (db db' : Db) → set_path path id db ≡ ok db' → SameChunks db db'
unfolding set_path
set_path_same path id db db' h = (ground (arith, h), ground (arith, h))

pub create_directory_same :
    (now : ℕ) (raw : Text) (db : Db) (r : Text × Db)
    → create_directory now raw db ≡ ok r
    → SameChunks db r.1
unfolding create_directory
create_directory_same now raw db r h = (ground (arith, h), ground (arith, h))

pub delete_file_same :
    (now : ℕ) (raw : Text) (db : Db) (r : Unit {0} × Db)
    → delete_file now raw db ≡ ok r
    → SameChunks db r.1
unfolding delete_file set_deleted_at insert_event
delete_file_same now raw db r h = (ground (arith, h), ground (arith, h))

pub restore_file_same :
    (now : ℕ) (raw : Text) (db : Db) (r : Unit {0} × Db)
    → restore_file now raw db ≡ ok r
    → SameChunks db r.1
unfolding restore_file insert_event clear_deleted_at
restore_file_same now raw db r h = (ground (arith, h), ground (arith, h))

pub move_file_same :
    (now : ℕ) (source destination : Text) (db : Db) (r : Bool × Db)
    → move_file now source destination db ≡ ok r
    → SameChunks db r.1
unfolding move_file insert_event set_path ensure_directories
move_file_same now source destination db r h = (ground (arith, h), ground (arith, h))

pub create_share_link_same :
    (hash : ℕ → ℕ) (now id token : ℕ) (raw : Text) (ttl : ℤ) (limit : Option ℤ) (db : Db)
    (r : ShareLink × Db)
    → create_share_link hash now id token raw ttl limit db ≡ ok r
    → SameChunks db r.1
unfolding create_share_link insert_event insert_share_link
create_share_link_same hash now id token raw ttl limit db r h =
    (ground (arith, h), ground (arith, h))

pub revoke_share_link_same :
    (now id : ℕ) (db : Db) (r : Unit {0} × Db)
    → revoke_share_link now id db ≡ ok r
    → SameChunks db r.1
unfolding revoke_share_link insert_event
revoke_share_link_same now id db r h = (ground (arith, h), ground (arith, h))

pub shared_download_manifest_same :
    (hash : ℕ → ℕ) (now token : ℕ) (db : Db) (r : ((ShareLink × Version) × List VersionChunk) × Db)
    → shared_download_manifest hash now token db ≡ ok r
    → SameChunks db r.1
unfolding shared_download_manifest count_download
shared_download_manifest_same hash now token db r h = (ground (arith, h), ground (arith, h))

pub create_upload_same :
    (call : UploadCall) (db : Db) (r : (UploadSession × List UploadChunk) × Db)
    → create_upload call db ≡ ok r
    → SameChunks db r.1
unfolding create_upload reuse_session update_session
create_upload_same call db r h = (ground (arith, h), ground (arith, h))

pub abort_session_same : (id : ℕ) (db db' : Db) → abort_session id db ≡ ok db' → SameChunks db db'
unfolding abort_session update_session
abort_session_same id db db' h = (ground (arith, h), ground (arith, h))

-- A transaction keeps the counts exact if its body does.
pub transact-IsCounted :
    {A : Type 0} (body : Db → Result (A × Db)) (v : Vault)
    → IsCounted v.db
    → ((r : A × Db) → body v.db ≡ ok r → IsCounted r.1)
    → IsCounted (transact body v).1.db
transact-IsCounted body v c kept = elim (Result-cases (body v.db)) [
  | inl (r, e) ↦ rw (e, transact) (kept r e)
  | inr (x, e) ↦ rw (e, transact) c
]

pub transact_same :
    {A : Type 0} (body : Db → Result (A × Db)) (v : Vault)
    → IsCounted v.db
    → ((r : A × Db) → body v.db ≡ ok r → SameChunks v.db r.1)
    → IsCounted (transact body v).1.db
transact_same body v c same =
    transact-IsCounted body v c (λ r h. IsCounted-same v.db r.1 c (same r h).0 (same r h).1)
