-- ===== src/Vault/Counted.antt =====
-- The methods of `Vault` and the reference counts: the count of a chunk and the number of the rows of
-- `version_chunks` that name it.
pub mod Steps
pub mod Removal
pub mod Garbage
pub mod Kept
