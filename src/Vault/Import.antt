-- ===== src/Vault/Import.antt =====
-- `import_file`: a file is cut into chunks, the chunks are stored under the quota, and one
-- transaction records the new version.
pub mod Cut
pub mod ReadBack
use personal_secure_node.Prelude.{
  ℕ, zero, suc, ◌+◌, Text, ℤ, to_ℕ, int_ltb, Bool, true, false, not, ◌&&◌, Option, none, some, List,
  [], ◌∷◌, map, Result, ok, err, raise_if, or_raise, ◌>>=◌, ◌>>◌, value_error, file_not_found,
  integrity_error, quota_exceeded, ltb, ◌==◌, if◌then◌else◌, length, take, drop,
}
use personal_secure_node.Cipher.{Bytes, Primitives, blob_overhead}
use personal_secure_node.Blobs.{Store, exists, put, disk_usage}
use personal_secure_node.Paths.{normalize_virtual_path}
use personal_secure_node.Schema.{Db, File, Chunk, file_version_created}
use personal_secure_node.Schema.Statements.{
  live_file, version_by_id, chunk_by_id, insert_file, insert_version, insert_version_chunk,
  insert_chunk, add_reference, set_current_version, insert_event,
}
use personal_secure_node.Vault.{Vault, transact}
use personal_secure_node.Vault.Directories.{ensure_directories}

-- one chunk of a file as it was stored: the tuples of `chunk_records`, with their ordinal
pub record Piece : Type 0 where
  pub ordinal : ℕ
  pub chunk_id : ℕ
  pub plain_size : ℕ
  pub stored_size : ℕ

pub record ImportResult : Type 0 where
  pub file_id : ℕ
  pub version_id : ℕ
  pub virtual_path : Text
  pub size : ℕ
  pub chunks : ℕ
  pub new_chunks : ℕ
  pub unchanged : Bool

-- `handle.read(chunk_size)` until it returns nothing; the content's length is fuel enough
unfoldable pub read_chunks : ℕ → ℕ → Bytes → List Bytes
read_chunks zero n content = []
read_chunks (suc fuel) n [] = []
read_chunks (suc fuel) n (c ∷ cs) = take n (c ∷ cs) ∷ read_chunks fuel n (drop n (c ∷ cs))

-- UPDATE or INSERT of one row of `chunks`
unfoldable pub count_reference : ℕ → Piece → Option Chunk → Db → Result Db
count_reference now piece none db =
    ok (insert_chunk piece.chunk_id piece.plain_size piece.stored_size now db)
count_reference now piece (some row) db = do
  raise_if (not (row.plain_size == piece.plain_size)) integrity_error
  ok (add_reference piece.chunk_id db)

-- the loop that records the chunks of a version; `commit_upload` has the same one
unfoldable pub reference_chunks : ℕ → ℕ → List Piece → Db → Result Db
unfolding count_reference
reference_chunks version_id now [] db = ok db
reference_chunks version_id now (piece ∷ pieces) db = do
  db1 ← count_reference now piece (chunk_by_id piece.chunk_id db) db
  db2 ←
      insert_version_chunk
        (record {
          version_id = version_id;
          ordinal = piece.ordinal;
          chunk_id = piece.chunk_id;
          plain_size = piece.plain_size;
        })
        db1
  reference_chunks version_id now pieces db2

-- the file that a new version belongs to: the live one, or a new one with its directories
unfoldable pub file_for_version : Option File → ℕ → Text → ℕ → Db → Result (ℕ × Db)
file_for_version (some row) fresh path now db = ok (row.id, db)
file_for_version none fresh path now db = do
  db1 ← insert_file fresh path now (ensure_directories path now db)
  ok (fresh, db1)

-- `file_row["current_version_id"]` is set, and the version has this size and hash
unfoldable pub same_content : Option File → ℕ → ℕ → Db → Option (ℕ × ℕ)
same_content none size digest db = none
same_content (some row) size digest db = elim row.current_version_id [
  | none ↦ none
  | some current_id ↦ elim (version_by_id current_id db) [
    | none ↦ none
    | some current ↦
        if current.size == size && current.content_hash == digest
        then some (row.id, current.id)
        else none
  ]
]

module _ (p : Primitives) where
  -- the body of the reading loop, on one chunk
  unfoldable pub store_chunk :
      Bytes → Option ℕ → ℕ → ℕ → Bytes → Store → Result ((Piece × Bool) × ℕ) × Store
  store_chunk nonce quota usage ordinal plaintext s =
      let chunk_id = p.chunk_mac plaintext in
      let over = elim quota as (λ _. Bool) [
        | none ↦ false
        | some q ↦ not (exists chunk_id s) && ltb q (usage + (length plaintext + blob_overhead))
      ] in
      let ((stored, created), s') = put p nonce chunk_id plaintext s in
      if over then (err quota_exceeded, s) else (
        ok (
          (
            record {
              ordinal = ordinal;
              chunk_id = chunk_id;
              plain_size = length plaintext;
              stored_size = stored;
            },
            created,
          ),
          (if created then usage + stored else usage),
        ),
        s',
      )

  -- the loop; chunks that were stored before a failure stay in the directory
  unfoldable pub store_chunks :
      (ℕ → Bytes) → Option ℕ → ℕ → ℕ → List Bytes → Store → Result (List (Piece × Bool)) × Store
  store_chunks nonces quota usage n [] s = (ok [], s)
  store_chunks nonces quota usage n (t ∷ ts) s =
      let (r, s1) = store_chunk (nonces n) quota usage n t s in
      elim r [
        | err e ↦ (err e, s1)
        | ok (record_, usage') ↦
            let (rs, s2) = store_chunks nonces quota usage' (suc n) ts s1 in
            ((do records ← rs; ok (record_ ∷ records)), s2)
      ]

abbrev pub count_created : List (Piece × Bool) → ℕ
count_created [] = 0
count_created ((piece, created) ∷ rs) = (if created then 1 else 0) + count_created rs

-- what the call knows when the transaction begins
pub record NewVersion : Type 0 where
  pub fresh_file_id : ℕ
  pub version_id : ℕ
  pub now : ℕ
  pub virtual_path : Text
  pub size : ℕ
  pub digest : ℕ
  pub records : List (Piece × Bool)

-- the statements of the transaction from the INSERT of a file on
unfoldable pub insert_new_version : NewVersion → List Piece → Option File → Db → Result (ℕ × Db)
insert_new_version new pieces file_row db = do
  (file_id, db1) ← file_for_version file_row new.fresh_file_id new.virtual_path new.now db
  db2 ←
      insert_version
        (record {
          id = new.version_id;
          file_id = file_id;
          size = new.size;
          content_hash = new.digest;
          created_at = new.now;
        })
        db1
  db3 ← reference_chunks new.version_id new.now pieces db2
  ok (file_id, set_current_version new.version_id file_id db3)

imported : NewVersion → ℕ → ℕ → ℕ → Bool → ImportResult
imported new file_id version_id new_chunks unchanged = record {
  file_id = file_id;
  version_id = version_id;
  virtual_path = new.virtual_path;
  size = new.size;
  chunks = length new.records;
  new_chunks = new_chunks;
  unchanged = unchanged;
}

-- the transaction; with unchanged content it is rolled back
unfoldable pub record_version : NewVersion → Db → Result (ImportResult × Db)
unfolding imported
record_version new db =
    let file_row = live_file new.virtual_path db in
    elim (same_content file_row new.size new.digest db) [
      | some (file_id, version_id) ↦ ok (imported new file_id version_id 0 true, db)
      | none ↦ do
        (file_id, db1) ← insert_new_version new (map (λ r. r.0) new.records) file_row db
        ok (
          imported new file_id new.version_id (count_created new.records) false,
          insert_event file_version_created file_id (some new.version_id) new.now db1,
        )
    ]

-- the arguments of one call, with what it reads from outside: the source file's name and content,
-- if there is one, the clock, the fresh identifiers and the nonces
pub record ImportCall : Type 0 where
  pub source : Option (Text × Bytes)
  pub virtual_path : Option Text
  pub chunk_size : ℤ
  pub now : ℕ
  pub fresh_file_id : ℕ
  pub fresh_version_id : ℕ
  pub nonces : ℕ → Bytes

-- `virtual_path or source.name`
abbrev path_or_name : Option Text → Text → Text
path_or_name none name = name
path_or_name (some []) name = name
path_or_name (some (c ∷ cs)) name = c ∷ cs

module _ (p : Primitives) where
  -- the call once its arguments are checked
  unfoldable pub import_content : ImportCall → Text → Bytes → Vault → Result ImportResult × Vault
  import_content call path content v =
      let (stored, blobs') =
        store_chunks p call.nonces v.db.quota_bytes (disk_usage v.blobs) zero
          (read_chunks (length content) (to_ℕ call.chunk_size) content) v.blobs in
      elim stored [
        | err e ↦ (err e, record v { blobs = blobs' })
        | ok records ↦
            transact
              (record_version (record {
                fresh_file_id = call.fresh_file_id;
                version_id = call.fresh_version_id;
                now = call.now;
                virtual_path = path;
                size = length content;
                digest = p.sha256 content;
                records = records;
              }))
              (record v { blobs = blobs' })
      ]

  unfoldable pub check_import : ImportCall → Result (Text × Bytes)
  check_import call = do
    (name, content) ← or_raise call.source file_not_found
    raise_if (int_ltb call.chunk_size 1) value_error
    path ← normalize_virtual_path (path_or_name call.virtual_path name)
    ok (path, content)

  unfoldable pub import_file : ImportCall → Vault → Result ImportResult × Vault
  import_file call v = elim (check_import call) [
    | err e ↦ (err e, v)
    | ok (path, content) ↦ import_content call path content v
  ]
