-- ===== src/Schema.antt =====
-- The tables of psn_drive/database.py that `Vault` reads and writes, one record for each row and one
-- list of rows for each table. Identifiers, digests and tokens are only compared, so they are
-- numbers. A time is the number of microseconds since some start: `isoformat` of UTC times orders
-- texts as it orders the times.
pub mod Statements
pub mod References
use personal_secure_node.Prelude.{ℕ, Text, Option, none, List, []}

pub record File : Type 0 where
  pub id : ℕ
  pub virtual_path : Text
  pub current_version_id : Option ℕ
  pub created_at : ℕ
  pub deleted_at : Option ℕ

pub record Version : Type 0 where
  pub id : ℕ
  pub file_id : ℕ
  pub size : ℕ
  pub content_hash : ℕ
  pub created_at : ℕ

pub record Chunk : Type 0 where
  pub id : ℕ
  pub ref_count : ℕ
  pub plain_size : ℕ
  pub stored_size : ℕ
  pub created_at : ℕ

pub record VersionChunk : Type 0 where
  pub version_id : ℕ
  pub ordinal : ℕ
  pub chunk_id : ℕ
  pub plain_size : ℕ

pub data EventType : Type 0 where
  file_version_created file_moved file_deleted file_restored file_version_restored : EventType
  share_created share_revoked : EventType

-- `sequence` is the row's place in the list.
pub record Event : Type 0 where
  pub event_type : EventType
  pub file_id : ℕ
  pub version_id : Option ℕ
  pub occurred_at : ℕ

pub data UploadState : Type 0 where
  opened committed aborted expired : UploadState

pub record UploadSession : Type 0 where
  pub id : ℕ
  pub virtual_path : Text
  pub expected_size : ℕ
  pub chunk_size : ℕ
  pub idempotency_key : Text
  pub state : UploadState
  pub created_at : ℕ
  pub expires_at : ℕ
  pub committed_version_id : Option ℕ

pub record UploadChunk : Type 0 where
  pub session_id : ℕ
  pub ordinal : ℕ
  pub chunk_id : ℕ
  pub plain_size : ℕ
  pub stored_size : ℕ

pub record Directory : Type 0 where
  pub virtual_path : Text
  pub created_at : ℕ

pub record ShareLink : Type 0 where
  pub id : ℕ
  pub token_hash : ℕ
  pub file_id : ℕ
  pub version_id : ℕ
  pub virtual_path : Text
  pub created_at : ℕ
  pub expires_at : ℕ
  pub max_downloads : Option ℕ
  pub download_count : ℕ
  pub last_downloaded_at : Option ℕ
  pub revoked_at : Option ℕ

-- `quota_bytes` and `trash_retention_days` are the two keys of `vault_settings`.
pub record Db : Type 0 where
  pub files : List File
  pub versions : List Version
  pub chunks : List Chunk
  pub version_chunks : List VersionChunk
  pub events : List Event
  pub quota_bytes : Option ℕ
  pub trash_retention_days : Option ℕ
  pub upload_sessions : List UploadSession
  pub upload_session_chunks : List UploadChunk
  pub directories : List Directory
  pub share_links : List ShareLink

-- the database that `initialize` leaves in a new vault
abbrev pub empty_db : Db
empty_db = record {
  files = [];
  versions = [];
  chunks = [];
  version_chunks = [];
  events = [];
  quota_bytes = none;
  trash_retention_days = none;
  upload_sessions = [];
  upload_session_chunks = [];
  directories = [];
  share_links = [];
}
