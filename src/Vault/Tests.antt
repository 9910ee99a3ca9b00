-- ===== src/Vault/Tests.antt =====
-- A small vault for the tests, and runs of its methods.
pub mod Counting
pub mod Removing
pub mod Sharing
pub mod Reaching
pub mod Reading
pub mod Restoring
pub use personal_secure_node.Cipher.Tests.{tag, toy, nonce}
use personal_secure_node.Prelude.{
  ℕ, suc, ◌+◌, ◌-◌, ◌*◌, ◌≡◌, refl, Text, none, some, List, [], ◌∷◌, ◌++◌, length, take, uses,
  find_first, arith,
}
use personal_secure_node.Cipher.{Bytes, Primitives}
use personal_secure_node.Schema.{Db, File, Version, Chunk, VersionChunk, empty_db}
use personal_secure_node.Schema.References.{IsCounted}
use personal_secure_node.Schema.Statements.{chunk_by_id}
use personal_secure_node.Vault.{Vault}

abbrev pub path_a : Text
path_a = 97 ∷ []

-- one live file "a" with one version of one chunk
abbrev pub file_a : File
file_a = record {
  id = 1;
  virtual_path = path_a;
  current_version_id = some 2;
  created_at = 10;
  deleted_at = none;
}

abbrev pub version_a : Version
version_a = record { id = 2; file_id = 1; size = 1; content_hash = 66; created_at = 10 }

abbrev pub chunk_a : Chunk
chunk_a = record { id = 66; ref_count = 1; plain_size = 1; stored_size = 34; created_at = 10 }

abbrev pub row_a : VersionChunk
row_a = record { version_id = 2; ordinal = 0; chunk_id = 66; plain_size = 1 }

abbrev pub db_a : Db
db_a = record empty_db {
  files = file_a ∷ [];
  versions = version_a ∷ [];
  chunks = chunk_a ∷ [];
  version_chunks = row_a ∷ [];
}

pub db_a-IsCounted : IsCounted db_a
unfolding chunk_by_id uses find_first
db_a-IsCounted = record { counted = λ k. ground arith; keyed = λ k. ground arith }
