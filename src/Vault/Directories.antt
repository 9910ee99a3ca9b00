-- ===== src/Vault/Directories.antt =====
-- `_ensure_directories` and `create_directory`.
use personal_secure_node.Prelude.{ℕ, Text, List, [], ◌∷◌, ◌++◌, Result, ok, ◌>>=◌}
use personal_secure_node.Paths.{normalize_virtual_path, parts_of, join}
use personal_secure_node.Schema.{Db, Directory}
use personal_secure_node.Schema.Statements.{insert_directory}

-- `parts[:-1]`
unfoldable pub drop_last : List Text → List Text
drop_last [] = []
drop_last (s ∷ []) = []
drop_last (s ∷ t ∷ ts) = s ∷ drop_last (t ∷ ts)

-- the loop over `parts`, which inserts "a", "a/b", "a/b/c", …
unfoldable pub insert_prefixes : ℕ → List Text → List Text → List Directory → List Directory
insert_prefixes now current [] ds = ds
insert_prefixes now current (part ∷ parts) ds =
    let current' = current ++ part ∷ [] in
    insert_prefixes now current' parts (insert_directory now (join current') ds)

unfoldable pub ensure_directories : Text → ℕ → Db → Db
unfolding insert_prefixes drop_last
ensure_directories path now db = record db {
  directories = insert_prefixes now [] (drop_last (parts_of path)) db.directories;
}

unfoldable pub create_directory : ℕ → Text → Db → Result (Text × Db)
create_directory now raw db = do
  path ← normalize_virtual_path raw
  ok (path, record db { directories = insert_prefixes now [] (parts_of path) db.directories })
