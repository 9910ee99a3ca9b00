-- ===== src/Vault/Uploads/Commit.antt =====
-- `commit_upload`: the chunks of a session are read back, hashed, and become a version.
use personal_secure_node.Prelude.{
  ℕ, zero, suc, Bool, true, false, not, ◌&&◌, ◌||◌, Option, none, some, List, [], ◌∷◌, ◌++◌, map,
  Result, ok, err, raise_if, ◌>>=◌, ◌>>◌, integrity_error, upload_conflict,
  upload_session_not_found, type_error, ◌==◌, if◌then◌else◌, length,
}
use personal_secure_node.Cipher.{Bytes, Primitives}
use personal_secure_node.Blobs.{Store, get}
use personal_secure_node.Schema.{
  Db, File, UploadSession, UploadChunk, opened, committed, aborted, expired, file_version_created,
}
use personal_secure_node.Schema.Statements.{live_file, version_by_id, insert_event}
use personal_secure_node.Vault.{Vault, transact}
use personal_secure_node.Vault.Import.{Piece, NewVersion, insert_new_version}
use personal_secure_node.Vault.Uploads.{
  session_by_id, update_session, session_chunks, require_open_upload, chunk_count,
}

-- `chunk["ordinal"] == index` for each chunk, from an index on
unfoldable pub in_order : ℕ → List UploadChunk → Bool
in_order n [] = true
in_order n (c ∷ cs) = c.ordinal == n && in_order (suc n) cs

unfoldable pub piece_of : UploadChunk → Piece
piece_of c = record {
  ordinal = c.ordinal;
  chunk_id = c.chunk_id;
  plain_size = c.plain_size;
  stored_size = c.stored_size;
}

unfoldable pub set_committed : ℕ → ℕ → Db → Db
set_committed session_id version_id =
    update_session session_id
      (λ s. record s { state = committed; committed_version_id = some version_id })

-- the version of the live file, if its size and hash are these; a current version that has no row
-- makes the subscript of `None` fail
unfoldable pub commit_unchanged : Option File → ℕ → ℕ → Db → Result (Option ℕ)
commit_unchanged none size digest db = ok none
commit_unchanged (some row) size digest db = elim row.current_version_id [
  | none ↦ ok none
  | some id ↦ elim (version_by_id id db) [
    | none ↦ err type_error
    | some current ↦
        ok
          (if current.size == size && current.content_hash == digest then some current.id else none)
  ]
]

-- The reply is the version and whether it was there before.
unfoldable pub record_upload :
    UploadSession → List UploadChunk → NewVersion → Db → Result ((ℕ × Bool) × Db)
record_upload u chunks new db = do
  let file_row = live_file u.virtual_path db
  unchanged ← commit_unchanged file_row new.size new.digest db
  elim unchanged [
    | some current_id ↦ ok ((current_id, true), set_committed u.id current_id db)
    | none ↦ do
      (file_id, db1) ← insert_new_version new (map piece_of chunks) file_row db
      ok (
        (new.version_id, false),
        insert_event file_version_created file_id (some new.version_id) new.now
            (set_committed u.id new.version_id db1),
      )
  ]

module _ (p : Primitives) where
  -- the loop that reads and hashes the chunks
  unfoldable pub read_back : List UploadChunk → Store → Result Bytes
  read_back [] s = ok []
  read_back (c ∷ cs) s = do
    plaintext ← get p c.chunk_id s
    raise_if (not (length plaintext == c.plain_size)) integrity_error
    rest ← read_back cs s
    ok (plaintext ++ rest)

  -- the transaction from the SELECT of the chunks on, for an open session
  unfoldable pub commit_open : ℕ → ℕ → ℕ → UploadSession → Store → Db → Result ((ℕ × Bool) × Db)
  commit_open now fresh_file_id version_id u s db = do
    let chunks = session_chunks u.id db
    raise_if (not (length chunks == chunk_count u) || not (in_order zero chunks)) upload_conflict
    content ← read_back chunks s
    raise_if (not (length content == u.expected_size)) upload_conflict
    record_upload u chunks
        (record {
          fresh_file_id = fresh_file_id;
          version_id = version_id;
          now = now;
          virtual_path = u.virtual_path;
          size = length content;
          digest = p.sha256 content;
          records = [];
        })
        db

  unfoldable pub commit_required : ℕ → ℕ → ℕ → ℕ → Vault → Result (Option ℕ × Bool) × Vault
  commit_required now fresh_file_id version_id session_id v =
      let (r, db1) = require_open_upload now session_id v.db in
      elim r [
        | err e ↦ (err e, record v { db = db1 })
        | ok u ↦
            transact
              (λ db. do
                ((id, unchanged), db2) ← commit_open now fresh_file_id version_id u v.blobs db
                ok ((some id, unchanged), db2))
              v
      ]

  -- The reply is the version of the session and whether its content was there before.
  unfoldable pub commit_upload : ℕ → ℕ → ℕ → ℕ → Vault → Result (Option ℕ × Bool) × Vault
  commit_upload now fresh_file_id version_id session_id v = elim (session_by_id session_id v.db) [
    | none ↦ (err upload_session_not_found, v)
    | some u ↦ elim u.state [
      | committed ↦ (ok (u.committed_version_id, true), v)
      | opened ↦ commit_required now fresh_file_id version_id session_id v
      | aborted ↦ commit_required now fresh_file_id version_id session_id v
      | expired ↦ commit_required now fresh_file_id version_id session_id v
    ]
  ]
