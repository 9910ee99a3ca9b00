-- ===== src/Vault/Versions.antt =====
-- Versions of a file: `list_versions`, `restore_version`, `download_manifest`, `iter_manifest` and
-- `export_file`.
use personal_secure_node.Prelude.{
  ℕ, Text, Bool, false, not, ◌&&◌, ◌||◌, Option, none, some, List, [], ◌∷◌, ◌++◌, map, Result, ok,
  raise_if, or_raise, ◌>>=◌, ◌>>◌, file_not_found_in_vault, integrity_error, leb, ◌==◌, text_eq,
  find_first, select, latest, length, sort_by, any,
}
use personal_secure_node.Cipher.{Bytes, Primitives}
use personal_secure_node.Blobs.{Store, get}
use personal_secure_node.Paths.{normalize_virtual_path}
use personal_secure_node.Schema.{Db, File, Version, VersionChunk, file_version_restored}
use personal_secure_node.Schema.Statements.{
  is_live_at, live_file, version_by_id, insert_version, insert_version_chunk, add_reference,
  set_current_version, insert_event,
}

-- `SELECT … FROM version_chunks WHERE version_id = ? ORDER BY ordinal`
unfoldable pub chunks_of_version : ℕ → Db → List VersionChunk
chunks_of_version version_id db =
    sort_by (λ a b. leb a.ordinal b.ordinal)
      (select (λ r. version_id == r.version_id) db.version_chunks)

-- the newest file of a path, live or deleted
newest_file : Text → Db → Option File
newest_file path db =
    latest (λ f. f.created_at) (select (λ f. text_eq path f.virtual_path) db.files)

-- `CASE WHEN id = ? THEN 1 ELSE 0 END`
is_current : Option ℕ → ℕ → Bool
is_current none id = false
is_current (some c) id = id == c

-- the versions, newest first, each with whether it is the current one
unfoldable pub list_versions : Text → Db → Result (List (Version × Bool))
unfolding newest_file is_current
list_versions raw db = do
  path ← normalize_virtual_path raw
  row ← or_raise (newest_file path db) file_not_found_in_vault
  ok (
      map (λ v. (v, is_current row.current_version_id v.id))
        (sort_by (λ a b. leb b.created_at a.created_at)
          (select (λ v. row.id == v.file_id) db.versions)))

-- the row that a download reads: of the live file at its current version, or of the newest file of
-- the path that has the version asked for
unfoldable pub download_row : Text → Option ℕ → Db → Option (File × Version)
download_row path none db = elim (live_file path db) [
  | none ↦ none
  | some f ↦ elim f.current_version_id [
    | none ↦ none
    | some id ↦ elim (version_by_id id db) [ none ↦ none | some v ↦ some (f, v) ]
  ]
]
download_row path (some id) db = elim (version_by_id id db) [
  | none ↦ none
  | some v ↦
      elim (latest (λ f. f.created_at)
        (select (λ f. text_eq path f.virtual_path && f.id == v.file_id) db.files)) [
          | none ↦ none
          | some f ↦ some (f, v)
        ]
]

unfoldable pub download_manifest :
    Text → Option ℕ → Db → Result ((File × Version) × List VersionChunk)
unfolding download_row chunks_of_version
download_manifest raw version_id db = do
  path ← normalize_virtual_path raw
  (f, v) ← or_raise (download_row path version_id db) file_not_found_in_vault
  ok ((f, v), chunks_of_version v.id db)

module _ (p : Primitives) where
  -- the plaintexts that the generator yields, up to the first failure
  unfoldable pub iter_manifest : List VersionChunk → Store → Result Bytes
  iter_manifest [] s = ok []
  iter_manifest (chunk ∷ rest) s = do
    plaintext ← get p chunk.chunk_id s
    raise_if (not (length plaintext == chunk.plain_size)) integrity_error
    others ← iter_manifest rest s
    ok (plaintext ++ others)

  -- The result is the row and the content of the file that is written.
  unfoldable pub export_file : Text → Option ℕ → Db → Store → Result ((File × Version) × Bytes)
  unfolding iter_manifest download_manifest
  export_file raw version_id db s = do
    ((f, v), chunks) ← download_manifest raw version_id db
    content ← iter_manifest chunks s
    raise_if (not (length content == v.size) || not (p.sha256 content == v.content_hash))
        integrity_error
    ok ((f, v), content)

-- the loop of `restore_version` over the chunks of the old version
unfoldable pub copy_chunks : ℕ → List VersionChunk → Db → Result Db
copy_chunks version_id [] db = ok db
copy_chunks version_id (chunk ∷ rest) db = do
  db1 ← insert_version_chunk (record chunk { version_id = version_id }) db
  copy_chunks version_id rest (add_reference chunk.chunk_id db1)

-- the row of a live file that has the version
unfoldable pub live_version : Text → ℕ → Db → Option Version
live_version path version_id db =
    find_first
      (λ v. version_id == v.id && any (λ f. is_live_at path f && f.id == v.file_id) db.files)
      db.versions

unfoldable pub restore_version : ℕ → ℕ → Text → ℕ → Db → Result (ℕ × Db)
restore_version now new_version_id raw version_id db = do
  path ← normalize_virtual_path raw
  row ← or_raise (live_version path version_id db) file_not_found_in_vault
  db1 ← insert_version (record row { id = new_version_id; created_at = now }) db
  db2 ← copy_chunks new_version_id (chunks_of_version version_id db1) db1
  let db3 = set_current_version new_version_id row.file_id db2
  ok (new_version_id, insert_event file_version_restored row.file_id (some new_version_id) now db3)
