-- ===== src/Vault/Tests/Restoring.antt =====
-- A file is deleted and restored while the trash has an older file of its path.
use personal_secure_node.Prelude.{◌≡◌, refl, ◌∷◌, [], none, some, ok, any, select, text_eq, arith}
use personal_secure_node.Paths.{normalize_virtual_path}
use personal_secure_node.Schema.{Db, File}
use personal_secure_node.Schema.Statements.{live_file}
use personal_secure_node.Vault.Files.{delete_file, restore_file}
use personal_secure_node.Vault.Trash.{restore_file-delete_file}
use personal_secure_node.Vault.Tests.{db_a, file_a, path_a}

-- the file "a" that was deleted before
abbrev older : File
older = record file_a { id = 5; deleted_at = some 20 }

abbrev other : File
other = record file_a { id = 6; virtual_path = 98 ∷ [] }

abbrev three_files : Db
three_files = record db_a { files = older ∷ file_a ∷ other ∷ [] }

normalize_path_a : normalize_virtual_path path_a ≡ ok path_a
unfolding normalize_virtual_path select any text_eq
normalize_path_a = refl

restore_file-delete_file_example :
    (deleted : Db) × (delete_file 50 path_a three_files ≡ ok (tt, deleted))
    × (live_file path_a deleted ≡ none)
    × (restored : Db) × (restore_file 60 path_a deleted ≡ ok (tt, restored))
    × (restored.files ≡ older ∷ file_a ∷ other ∷ [])
unfolding any text_eq
restore_file-delete_file_example =
    restore_file-delete_file 50 60 path_a path_a three_files file_a (older ∷ []) (other ∷ [])
      normalize_path_a refl refl refl (omega arith, (omega arith, tt))
