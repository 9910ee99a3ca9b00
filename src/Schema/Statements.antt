-- ===== src/Schema/Statements.antt =====
-- The SQL statements that several methods share, with the constraints of the schema that they can
-- violate: primary keys, the unique index on live paths, foreign keys and `ref_count >= 0`.
use personal_secure_node.Prelude.{
  ℕ, ◌+◌, ◌-◌, Text, Bool, true, false, not, ◌&&◌, ◌||◌, Option, none, some, List, [], ◌∷◌, ◌++◌,
  Result, ok, constraint_violated, raise_if, ◌>>◌, ltb, ◌==◌, if◌then◌else◌, text_eq, find_first,
  update_where, any,
}
use personal_secure_node.Schema.{Db, File, Version, Chunk, VersionChunk, EventType, Directory}

-- `deleted_at IS NULL`
abbrev pub is_null : Option ℕ → Bool
is_null none = true
is_null (some t) = false

-- `virtual_path = ? AND deleted_at IS NULL`
abbrev pub is_live_at : Text → File → Bool
is_live_at path f = text_eq path f.virtual_path && is_null f.deleted_at

-- `column = ?` of a column that may be NULL
abbrev pub holds : ℕ → Option ℕ → Bool
holds v none = false
holds v (some w) = v == w

unfoldable pub live_file : Text → Db → Option File
live_file path db = find_first (is_live_at path) db.files

unfoldable pub version_by_id : ℕ → Db → Option Version
version_by_id id db = find_first (λ v. id == v.id) db.versions

unfoldable pub chunk_by_id : ℕ → Db → Option Chunk
chunk_by_id id db = find_first (λ c. id == c.id) db.chunks

-- the largest integer that SQLite takes for a parameter
abbrev pub max_integer : ℕ
max_integer = 9223372036854775807

-- INSERT INTO files(id, virtual_path, created_at)
unfoldable pub insert_file : ℕ → Text → ℕ → Db → Result Db
insert_file id path now db = do
  raise_if (any (λ f. id == f.id) db.files || any (is_live_at path) db.files) constraint_violated
  ok (record db {
    files =
        db.files
        ++ record {
          id = id;
          virtual_path = path;
          current_version_id = none;
          created_at = now;
          deleted_at = none;
        }
          ∷ [];
  })

-- INSERT INTO versions
unfoldable pub insert_version : Version → Db → Result Db
insert_version v db = do
  raise_if (any (λ w. v.id == w.id) db.versions || not (any (λ f. v.file_id == f.id) db.files))
      constraint_violated
  ok (record db { versions = db.versions ++ v ∷ [] })

-- INSERT INTO version_chunks
unfoldable pub insert_version_chunk : VersionChunk → Db → Result Db
insert_version_chunk r db = do
  raise_if
      (any (λ q. r.version_id == q.version_id && r.ordinal == q.ordinal) db.version_chunks
        || not (any (λ v. r.version_id == v.id) db.versions)
        || not (any (λ c. r.chunk_id == c.id) db.chunks))
      constraint_violated
  ok (record db { version_chunks = db.version_chunks ++ r ∷ [] })

-- INSERT INTO chunks(id, ref_count, …) VALUES (?, 1, …), of an identifier that was looked up before
unfoldable pub insert_chunk : ℕ → ℕ → ℕ → ℕ → Db → Db
insert_chunk id plain_size stored_size now db = record db {
  chunks =
      db.chunks
      ++ record {
        id = id;
        ref_count = 1;
        plain_size = plain_size;
        stored_size = stored_size;
        created_at = now;
      }
        ∷ [];
}

-- UPDATE chunks SET ref_count = ref_count + 1 WHERE id = ?
unfoldable pub add_reference : ℕ → Db → Db
add_reference id db = record db {
  chunks = update_where (λ c. id == c.id) (λ c. record c { ref_count = c.ref_count + 1 }) db.chunks;
}

-- UPDATE chunks SET ref_count = ref_count - ? WHERE id = ?; `id` is the primary key, so the CHECK is
-- made on one row at most
unfoldable pub drop_references : ℕ → ℕ → Db → Result Db
drop_references id n db = elim (chunk_by_id id db) [
  | none ↦ ok db
  | some row ↦ do
    raise_if (ltb row.ref_count n) constraint_violated
    ok (record db {
      chunks =
          update_where (λ c. id == c.id) (λ c. record c { ref_count = c.ref_count - n }) db.chunks;
    })
]

-- UPDATE files SET current_version_id = ? WHERE id = ?
unfoldable pub set_current_version : ℕ → ℕ → Db → Db
set_current_version version_id file_id db = record db {
  files =
      update_where (λ f. file_id == f.id) (λ f. record f { current_version_id = some version_id })
        db.files;
}

-- UPDATE files SET virtual_path = ? WHERE id = ?, of a live file
unfoldable pub set_path : Text → ℕ → Db → Result Db
set_path path file_id db = do
  raise_if (any (λ f. is_live_at path f && not (file_id == f.id)) db.files) constraint_violated
  ok (record db {
    files = update_where (λ f. file_id == f.id) (λ f. record f { virtual_path = path }) db.files;
  })

-- UPDATE files SET deleted_at = ? WHERE id = ?
unfoldable pub set_deleted_at : ℕ → ℕ → Db → Db
set_deleted_at now file_id db = record db {
  files = update_where (λ f. file_id == f.id) (λ f. record f { deleted_at = some now }) db.files;
}

-- UPDATE files SET deleted_at = NULL WHERE id = ?, of a file whose path is `path`
unfoldable pub clear_deleted_at : Text → ℕ → Db → Result Db
clear_deleted_at path file_id db = do
  raise_if (any (λ f. is_live_at path f && not (file_id == f.id)) db.files) constraint_violated
  ok (record db {
    files = update_where (λ f. file_id == f.id) (λ f. record f { deleted_at = none }) db.files;
  })

-- INSERT INTO events
unfoldable pub insert_event : EventType → ℕ → Option ℕ → ℕ → Db → Db
insert_event type file_id version_id now db = record db {
  events =
      db.events
      ++ record { event_type = type; file_id = file_id; version_id = version_id; occurred_at = now }
        ∷ [];
}

-- INSERT OR IGNORE INTO directories
unfoldable pub insert_directory : ℕ → Text → List Directory → List Directory
insert_directory now path ds =
    if any (λ d. text_eq path d.virtual_path) ds
    then ds
    else ds ++ record { virtual_path = path; created_at = now } ∷ []
