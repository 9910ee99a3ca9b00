-- ===== src/Vault/Files.antt =====
-- Listing, moving, deleting and restoring files: `list_files`, `list_deleted_files`, `move_file`,
-- `delete_file` and `restore_file`. Each body runs in one transaction.
use personal_secure_node.Prelude.{
  ℕ, Text, Bool, true, false, not, ◌&&◌, ◌||◌, Option, none, some, List, map, Result, ok, raise_if,
  or_raise, ◌>>=◌, ◌>>◌, file_not_found_in_vault, restore_conflict, leb, if◌then◌else◌, text_eq,
  text_leb, select, latest, any, sort_by,
}
use personal_secure_node.Paths.{normalize_virtual_path}
use personal_secure_node.Schema.{Db, File, Version, file_moved, file_deleted, file_restored}
use personal_secure_node.Schema.Statements.{
  is_null, is_live_at, live_file, version_by_id, set_path, set_deleted_at, clear_deleted_at,
  insert_event,
}
use personal_secure_node.Vault.Directories.{ensure_directories}

-- a row of the listing: the file, and its current version by the LEFT JOIN
pub record Listing : Type 0 where
  pub file : File
  pub version : Option Version

current_version : Db → Option ℕ → Option Version
current_version db none = none
current_version db (some id) = version_by_id id db

listing : Db → File → Listing
unfolding current_version
listing db f = record { file = f; version = current_version db f.current_version_id }

unfoldable pub list_files : Bool → Db → List Listing
unfolding listing
list_files include_deleted db = map (listing db) (
    sort_by (λ f g. text_leb f.virtual_path g.virtual_path)
      (select (λ f. include_deleted || is_null f.deleted_at) db.files))

abbrev pub time_of : Option ℕ → ℕ
time_of none = 0
time_of (some t) = t

unfoldable pub list_deleted_files : Db → List Listing
unfolding listing
list_deleted_files db = map (listing db) (
    sort_by (λ f g. leb (time_of g.deleted_at) (time_of f.deleted_at))
      (select (λ f. not (is_null f.deleted_at)) db.files))

move_rows : ℕ → Text → Text → Db → Result (Bool × Db)
move_rows now source_path destination_path db = do
  source ← or_raise (live_file source_path db) file_not_found_in_vault
  raise_if (any (is_live_at destination_path) db.files) restore_conflict
  let db1 = ensure_directories destination_path now db
  db2 ← set_path destination_path source.id db1
  ok (true, insert_event file_moved source.id source.current_version_id now db2)

-- The result is whether the file was moved.
unfoldable pub move_file : ℕ → Text → Text → Db → Result (Bool × Db)
unfolding move_rows live_file set_path
move_file now source destination db = do
  source_path ← normalize_virtual_path source
  destination_path ← normalize_virtual_path destination
  if text_eq source_path destination_path
      then ok (false, db)
      else move_rows now source_path destination_path db

unfoldable pub delete_file : ℕ → Text → Db → Result (Unit {0} × Db)
unfolding live_file set_deleted_at
delete_file now raw db = do
  path ← normalize_virtual_path raw
  row ← or_raise (live_file path db) file_not_found_in_vault
  ok (
    tt,
    insert_event file_deleted row.id row.current_version_id now (set_deleted_at now row.id db),
  )

-- `WHERE virtual_path = ? AND deleted_at IS NOT NULL ORDER BY deleted_at DESC LIMIT 1`
unfoldable pub last_deleted : Text → Db → Option File
last_deleted path db =
    latest (λ f. time_of f.deleted_at)
      (select (λ f. text_eq path f.virtual_path && not (is_null f.deleted_at)) db.files)

unfoldable pub restore_file : ℕ → Text → Db → Result (Unit {0} × Db)
unfolding last_deleted clear_deleted_at
restore_file now raw db = do
  path ← normalize_virtual_path raw
  deleted ← or_raise (last_deleted path db) file_not_found_in_vault
  raise_if (any (is_live_at path) db.files) restore_conflict
  db1 ← clear_deleted_at path deleted.id db
  ok (tt, insert_event file_restored deleted.id deleted.current_version_id now db1)
