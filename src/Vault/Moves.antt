-- ===== src/Vault/Moves.antt =====
-- `move_files`: a batch of moves, all or none, through temporary paths.
pub mod Kept
use personal_secure_node.Prelude.{
  ℕ, zero, suc, Text, Bool, true, not, ◌&&◌, ◌||◌, List, [], ◌∷◌, map, Result, ok, raise_if,
  or_raise, ◌>>=◌, ◌>>◌, value_error, file_not_found_in_vault, restore_conflict, ltb, text_eq,
  select, any, length,
}
use personal_secure_node.Paths.{normalize_virtual_path}
use personal_secure_node.Schema.{Db, File, file_moved}
use personal_secure_node.Schema.Statements.{is_null, live_file, set_path, insert_event}
use personal_secure_node.Vault.Directories.{ensure_directories}

-- a normalized item with the row of its source
pub record Move : Type 0 where
  pub source : Text
  pub destination : Text
  pub row : File

unfoldable pub contains : Text → List Text → Bool
contains t ts = any (λ s. text_eq t s) ts

-- `len(set(texts)) == len(texts)`
unfoldable pub distinct : List Text → Bool
unfolding contains
distinct [] = true
distinct (t ∷ ts) = not (contains t ts) && distinct ts

normalize_moves : List (Text × Text) → Result (List (Text × Text))
normalize_moves [] = ok []
normalize_moves ((source, destination) ∷ moves) = do
  s ← normalize_virtual_path source
  d ← normalize_virtual_path destination
  rest ← normalize_moves moves
  ok ((s, d) ∷ rest)

-- the first loop, which reads the rows of the sources
find_sources : Db → List (Text × Text) → Result (List Move)
find_sources db [] = ok []
find_sources db ((source, destination) ∷ items) = do
  row ← or_raise (live_file source db) file_not_found_in_vault
  rest ← find_sources db items
  ok (record { source = source; destination = destination; row = row } ∷ rest)

-- the second loop moves every file to a temporary path, `temporary n` for the n-th
move_away : (ℕ → Text) → ℕ → List Move → Db → Result Db
move_away temporary n [] db = ok db
move_away temporary n (m ∷ ms) db = do
  db1 ← set_path (temporary n) m.row.id db
  move_away temporary (suc n) ms db1

-- the third loop moves each to its destination
move_in : ℕ → List Move → Db → Result Db
move_in now [] db = ok db
move_in now (m ∷ ms) db = do
  db1 ← set_path m.destination m.row.id (ensure_directories m.destination now db)
  move_in now ms (insert_event file_moved m.row.id m.row.current_version_id now db1)

-- The result is the number of files moved.
unfoldable pub move_files : ℕ → (ℕ → Text) → List (Text × Text) → Db → Result (ℕ × Db)
unfolding normalize_moves find_sources move_away move_in contains distinct
move_files now temporary moves db = do
  raise_if (ltb (length moves) 1 || ltb 100 (length moves)) value_error
  items ← normalize_moves moves
  let sources = map (λ (i : Text × Text). i.0) items
  let destinations = map (λ (i : Text × Text). i.1) items
  raise_if (not (distinct sources) || not (distinct destinations)) value_error
  rows ← find_sources db items
  let conflicts =
      select (λ f. is_null f.deleted_at && contains f.virtual_path destinations) db.files
  raise_if (any (λ f. not (contains f.virtual_path sources)) conflicts) restore_conflict
  db1 ← move_away temporary zero rows db
  db2 ← move_in now rows db1
  ok (length items, db2)
