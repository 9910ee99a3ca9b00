-- ===== src/Vault.antt =====
-- `Vault` of psn_drive/vault.py: the database and the directory of blobs. A method takes the clock
-- and the fresh identifiers that it reads as arguments, and returns its result and the new vault.
pub mod Directories
pub mod Files
pub mod Trash
pub mod Moves
pub mod Import
pub mod Versions
pub mod Purge
pub mod Shares
pub mod Settings
pub mod Uploads
pub mod Counted
pub mod Quota
pub mod Verify
pub mod Reachable
mod Tests
use personal_secure_node.Prelude.{Result, ok, err}
use personal_secure_node.Schema.{Db}
use personal_secure_node.Blobs

pub record Vault : Type 0 where
  pub db : Db
  pub blobs : Blobs.Store

-- `BEGIN IMMEDIATE`, the statements, `commit`; an exception rolls back. The blobs are not touched.
abbrev pub transact : {A : Type 0} → (Db → Result (A × Db)) → Vault → Result A × Vault
transact body v = elim (body v.db) [
  | ok (a, db') ↦ (ok a, record v { db = db' })
  | err e ↦ (err e, v)
]
