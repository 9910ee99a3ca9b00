-- ===== src/Vault/Tests/Counting.antt =====
-- A second version of the same content under a new path, and a restored version.
use personal_secure_node.Prelude.{
  ◌≡◌, refl, false, none, some, [], ◌∷◌, ok, select, find_first, update_where, any, sort_by,
  insert_by, text_eq,
}
use personal_secure_node.Paths.{normalize_virtual_path}
use personal_secure_node.Schema.{Db, file_version_created, file_version_restored}
use personal_secure_node.Schema.References.{IsCounted}
use personal_secure_node.Schema.Statements.{
  chunk_by_id, live_file, insert_file, insert_version, insert_version_chunk, add_reference,
  set_current_version, insert_event,
}
use personal_secure_node.Vault.Directories.{ensure_directories}
use personal_secure_node.Vault.Import.{
  NewVersion, ImportResult, record_version, same_content, insert_new_version, file_for_version,
  reference_chunks,
}
use personal_secure_node.Vault.Versions.{
  restore_version, live_version, copy_chunks, chunks_of_version,
}
use personal_secure_node.Vault.Counted.Steps.{record_version-IsCounted, restore_version-IsCounted}
use personal_secure_node.Vault.Tests.{
  db_a, db_a-IsCounted, file_a, version_a, chunk_a, row_a, path_a,
}

abbrev new_b : NewVersion
new_b = record {
  fresh_file_id = 3;
  version_id = 4;
  now = 20;
  virtual_path = 98 ∷ [];
  size = 1;
  digest = 66;
  records = (record { ordinal = 0; chunk_id = 66; plain_size = 1; stored_size = 34 }, false) ∷ [];
}

abbrev recorded : ImportResult × Db
recorded = (
  record {
    file_id = 3;
    version_id = 4;
    virtual_path = 98 ∷ [];
    size = 1;
    chunks = 1;
    new_chunks = 0;
    unchanged = false;
  },
  record db_a {
    files =
        file_a
        ∷ record {
          id = 3;
          virtual_path = 98 ∷ [];
          current_version_id = some 4;
          created_at = 20;
          deleted_at = none;
        }
        ∷ [];
    versions =
        version_a
        ∷ record { id = 4; file_id = 3; size = 1; content_hash = 66; created_at = 20 }
        ∷ [];
    chunks = record chunk_a { ref_count = 2 } ∷ [];
    version_chunks =
        row_a ∷ record { version_id = 4; ordinal = 0; chunk_id = 66; plain_size = 1 } ∷ [];
    events =
        record {
          event_type = file_version_created;
          file_id = 3;
          version_id = some 4;
          occurred_at = 20;
        }
        ∷ [];
  },
)

record_run : record_version new_b db_a ≡ ok recorded
unfolding record_version same_content live_file find_first text_eq insert_new_version
    file_for_version insert_file any ensure_directories insert_version reference_chunks chunk_by_id
    add_reference update_where insert_version_chunk set_current_version insert_event
    normalize_virtual_path select
record_run = refl

record_version-IsCounted_example : IsCounted recorded.1
record_version-IsCounted_example =
    record_version-IsCounted new_b db_a recorded db_a-IsCounted record_run

abbrev restored : Db
restored = record db_a {
  files = record file_a { current_version_id = some 5 } ∷ [];
  versions = version_a ∷ record version_a { id = 5; created_at = 30 } ∷ [];
  chunks = record chunk_a { ref_count = 2 } ∷ [];
  version_chunks = row_a ∷ record row_a { version_id = 5 } ∷ [];
  events =
      record {
        event_type = file_version_restored;
        file_id = 1;
        version_id = some 5;
        occurred_at = 30;
      }
      ∷ [];
}

restore_run : restore_version 30 5 path_a 2 db_a ≡ ok (5, restored)
unfolding restore_version normalize_virtual_path live_version copy_chunks chunks_of_version
    find_first any text_eq insert_version sort_by insert_by select insert_version_chunk
    add_reference update_where set_current_version insert_event
restore_run = refl

restore_version-IsCounted_example : IsCounted restored
restore_version-IsCounted_example =
    restore_version-IsCounted 30 5 path_a 2 db_a (5, restored) db_a-IsCounted restore_run
