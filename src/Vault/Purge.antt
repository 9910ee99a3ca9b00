-- ===== src/Vault/Purge.antt =====
-- `purge_file`, `collect_garbage` and `collect_orphan_blobs`: what removes data for good.
use personal_secure_node.Prelude.{
  ℕ, ◌+◌, Text, Bool, true, false, not, ◌&&◌, ◌||◌, Option, none, some, List, [], ◌∷◌, Result, ok,
  err, raise_if, or_raise, ◌>>=◌, ◌>>◌, file_not_found_in_vault, constraint_violated, ltb, ◌==◌,
  if◌then◌else◌, select, any, length,
}
use personal_secure_node.Blobs.{Store, read, delete, stored_chunk_ids}
use personal_secure_node.Paths.{normalize_virtual_path}
use personal_secure_node.Schema.{
  Db, Version, Chunk, VersionChunk, UploadSession, UploadState, opened, committed, aborted, expired,
}
use personal_secure_node.Schema.Statements.{drop_references}
use personal_secure_node.Vault.{Vault}
use personal_secure_node.Vault.Files.{last_deleted}

-- `… IN (SELECT id FROM versions WHERE file_id = ?)`
unfoldable pub is_version_of : ℕ → List Version → ℕ → Bool
is_version_of file_id vs id = any (λ v. id == v.id && file_id == v.file_id) vs

-- `SELECT chunk_id, COUNT(*) … GROUP BY chunk_id`
unfoldable pub count_one : ℕ → List (ℕ × ℕ) → List (ℕ × ℕ)
count_one k [] = (k, 1) ∷ []
count_one k ((j, n) ∷ t) = if k == j then (j, n + 1) ∷ t else (j, n) ∷ count_one k t

unfoldable pub group_uses : List VersionChunk → List (ℕ × ℕ)
unfolding count_one
group_uses [] = []
group_uses (r ∷ rs) = count_one r.chunk_id (group_uses rs)

unfoldable pub drop_all_references : List (ℕ × ℕ) → Db → Result Db
drop_all_references [] db = ok db
drop_all_references ((chunk_id, n) ∷ counts) db = do
  db1 ← drop_references chunk_id n db
  drop_all_references counts db1

-- `committed_version_id IN (SELECT id FROM versions WHERE file_id = ?)`
committed_to : ℕ → List Version → UploadSession → Bool
committed_to file_id vs u = elim u.committed_version_id [
  | none ↦ false
  | some id ↦ is_version_of file_id vs id
]

-- The five DELETE statements, with the rows that go by ON DELETE CASCADE: the chunks of a deleted
-- upload session and the share links of a deleted version or file.
unfoldable pub delete_rows : ℕ → Db → Db
unfolding committed_to
delete_rows file_id db =
    let gone = committed_to file_id db.versions in
    record db {
      upload_sessions = select (λ u. not (gone u)) db.upload_sessions;
      upload_session_chunks =
          select (λ c. not (any (λ u. gone u && c.session_id == u.id) db.upload_sessions))
            db.upload_session_chunks;
      version_chunks =
          select (λ r. not (is_version_of file_id db.versions r.version_id)) db.version_chunks;
      versions = select (λ v. not (file_id == v.file_id)) db.versions;
      share_links =
          select
            (λ s.
              not (is_version_of file_id db.versions s.version_id) && not (file_id == s.file_id))
            db.share_links;
      events = select (λ e. not (file_id == e.file_id)) db.events;
      files = select (λ f. not (file_id == f.id)) db.files;
    }

-- the transaction of `purge_file`; the result is the normalized path
unfoldable pub purge_rows : Text → Db → Result (Text × Db)
purge_rows raw db = do
  path ← normalize_virtual_path raw
  row ← or_raise (last_deleted path db) file_not_found_in_vault
  let rows = select (λ r. is_version_of row.id db.versions r.version_id) db.version_chunks
  db1 ← drop_all_references (group_uses rows) db
  ok (path, delete_rows row.id db1)

-- One round of `collect_garbage`: the blob goes, then the row, which must have no reference left by
-- the foreign key of `version_chunks`.
unfoldable pub collect_chunk : Chunk → Vault → Result Vault
collect_chunk row v = do
  raise_if (any (λ r. row.id == r.chunk_id) v.db.version_chunks) constraint_violated
  ok (record {
    blobs = (delete row.id v.blobs).1;
    db = record v.db {
      chunks = select (λ c. not (row.id == c.id && c.ref_count == 0)) v.db.chunks;
    };
  })

-- The rows are those that the SELECT found; a failure keeps the deletions of blobs and no other.
unfoldable pub collect_rows : List Chunk → Db → Vault → Result (ℕ × ℕ) × Vault
collect_rows [] saved v = (ok (0, 0), v)
collect_rows (row ∷ rows) saved v = elim (collect_chunk row v) [
  | err e ↦ (err e, record { db = saved; blobs = (delete row.id v.blobs).1 })
  | ok v1 ↦
      let (r, v2) = collect_rows rows saved v1 in
      ((do (n, bytes) ← r; ok (n + 1, bytes + row.stored_size)), v2)
]

-- The result is the number of chunks deleted and of bytes reclaimed.
unfoldable pub collect_garbage : Vault → Result (ℕ × ℕ) × Vault
collect_garbage v = collect_rows (select (λ c. c.ref_count == 0) v.db.chunks) v.db v

unfoldable pub purge_file : Text → Vault → Result (Text × (ℕ × ℕ)) × Vault
purge_file raw v = elim (purge_rows raw v.db) [
  | err e ↦ (err e, v)
  | ok (path, db1) ↦
      let (r, v1) = collect_garbage (record v { db = db1 }) in
      ((do counts ← r; ok (path, counts)), v1)
]

abbrev pub is_opened : UploadState → Bool
is_opened opened = true
is_opened committed = false
is_opened aborted = false
is_opened expired = false

-- `referenced`: a counted chunk, or one that an open upload session holds
unfoldable pub is_referenced : Db → ℕ → Bool
is_referenced db chunk_id =
    any (λ c. chunk_id == c.id && ltb 0 c.ref_count) db.chunks
    || any
        (λ c.
          chunk_id == c.chunk_id
          && any (λ u. c.session_id == u.id && is_opened u.state) db.upload_sessions)
        db.upload_session_chunks

size_of : Option (List ℕ) → ℕ
size_of none = 0
size_of (some blob) = length blob

unfoldable pub delete_blobs : List ℕ → Store → ℕ × Store
unfolding size_of
delete_blobs [] s = (0, s)
delete_blobs (id ∷ ids) s =
    let bytes = size_of (read id s) in
    let (reclaimed, s') = delete_blobs ids (delete id s).1 in (bytes + reclaimed, s')

-- The result is the number of orphans and of bytes reclaimed.
unfoldable pub collect_orphan_blobs : Vault → (ℕ × ℕ) × Vault
collect_orphan_blobs v =
    let orphans = select (λ id. not (is_referenced v.db id)) (stored_chunk_ids v.blobs) in
    let (reclaimed, s) = delete_blobs orphans v.blobs in
    ((length orphans, reclaimed), record v { blobs = s })
