-- ===== src/Vault/Uploads.antt =====
-- Upload sessions: `create_upload`, `get_upload`, `_require_open_upload`, `upload_chunk`,
-- `commit_upload`, `abort_upload` and `cleanup_uploads`.
pub mod Commit
pub mod Lost
pub mod Counting
pub mod Orphans
use personal_secure_node.Prelude.{
  ℕ, ◌+◌, ◌-◌, ◌*◌, ◌/◌, Text, ℤ, pos, negsuc, to_ℕ, int_ltb, Bool, true, false, not, ◌&&◌, ◌||◌,
  Option, none, some, List, [], ◌∷◌, ◌++◌, Result, ok, err, raise_if, or_raise, ◌>>=◌, ◌>>◌,
  value_error, upload_conflict, upload_session_expired, upload_session_not_found, quota_exceeded,
  constraint_violated, overflow_error, ltb, leb, ◌==◌, if◌then◌else◌, text_eq, find_first, select,
  update_where, any, sort_by, length,
}
use personal_secure_node.Cipher.{Bytes, Primitives, blob_overhead}
use personal_secure_node.Blobs.{exists, put, disk_usage}
use personal_secure_node.Paths.{normalize_virtual_path}
use personal_secure_node.Schema.{
  Db, File, UploadSession, UploadChunk, UploadState, opened, committed, aborted, expired,
}
use personal_secure_node.Schema.Statements.{max_integer, is_live_at, holds}
use personal_secure_node.Vault.{Vault}
use personal_secure_node.Vault.Purge.{collect_orphan_blobs, is_opened}
use personal_secure_node.Vault.Shares.{seconds}

abbrev pub default_chunk_size : ℕ
default_chunk_size = 4 * 1024 * 1024

unfoldable pub session_by_id : ℕ → Db → Option UploadSession
session_by_id id db = find_first (λ u. id == u.id) db.upload_sessions

-- UPDATE upload_sessions SET … WHERE id = ?
unfoldable pub update_session : ℕ → (UploadSession → UploadSession) → Db → Db
update_session id f db = record db {
  upload_sessions = update_where (λ u. id == u.id) f db.upload_sessions;
}

unfoldable pub session_chunks : ℕ → Db → List UploadChunk
session_chunks id db =
    sort_by (λ a b. leb a.ordinal b.ordinal)
      (select (λ c. id == c.session_id) db.upload_session_chunks)

unfoldable pub get_upload : ℕ → Db → Result (UploadSession × List UploadChunk)
unfolding session_by_id session_chunks
get_upload id db = do
  row ← or_raise (session_by_id id db) upload_session_not_found
  ok (row, session_chunks id db)

-- the arguments of `create_upload`, with the clock and the fresh identifier
pub record UploadCall : Type 0 where
  pub virtual_path : Text
  pub expected_size : ℤ
  pub idempotency_key : Text
  pub ttl_seconds : ℤ
  pub chunk_size : ℤ
  pub now : ℕ
  pub session_id : ℕ

unfoldable pub check_upload : UploadCall → Result Text
check_upload call = do
  path ← normalize_virtual_path call.virtual_path
  raise_if (int_ltb call.expected_size 0) value_error
  raise_if (length call.idempotency_key == 0 || ltb 200 (length call.idempotency_key)) value_error
  raise_if (int_ltb call.ttl_seconds 1 || not (int_ltb call.ttl_seconds (7 * 24 * 3600 + 1)))
      value_error
  raise_if (int_ltb call.chunk_size 1 || not (int_ltb call.chunk_size (default_chunk_size + 1)))
      value_error
  ok path

unfoldable pub reopened : UploadCall → UploadSession → UploadSession
reopened call u = record u {
  state = opened;
  committed_version_id = none;
  created_at = call.now;
  expires_at = call.now + seconds (to_ℕ call.ttl_seconds);
}

-- `SELECT 1 FROM files WHERE virtual_path = ? AND deleted_at IS NULL AND current_version_id = ?`
is_still_current : Text → Option ℕ → Db → Bool
is_still_current path none db = false
is_still_current path (some id) db =
    any (λ f. is_live_at path f && holds id f.current_version_id) db.files

-- the branches on the state of the session that has the key
unfoldable pub reuse_session :
    UploadCall → Text → UploadSession → UploadState → Db → UploadSession × Db
unfolding is_still_current reopened update_session
reuse_session call path u opened db = (u, db)
reuse_session call path u committed db =
    if is_still_current path u.committed_version_id db
    then (u, db)
    else (reopened call u, update_session u.id (reopened call) db)
reuse_session call path u _ db = (
  reopened call u,
  update_session u.id (reopened call) (record db {
    upload_session_chunks = select (λ c. not (u.id == c.session_id)) db.upload_session_chunks;
  }),
)

new_session : UploadCall → Text → UploadSession
new_session call path = record {
  id = call.session_id;
  virtual_path = path;
  expected_size = to_ℕ call.expected_size;
  chunk_size = to_ℕ call.chunk_size;
  idempotency_key = call.idempotency_key;
  state = opened;
  created_at = call.now;
  expires_at = call.now + seconds (to_ℕ call.ttl_seconds);
  committed_version_id = none;
}

start_session : UploadCall → Text → Db → Result ((UploadSession × List UploadChunk) × Db)
unfolding new_session get_upload
start_session call path db = do
  raise_if (ltb max_integer (to_ℕ call.expected_size)) overflow_error
  raise_if (any (λ u. call.session_id == u.id) db.upload_sessions) constraint_violated
  let db1 : Db = record db { upload_sessions = db.upload_sessions ++ new_session call path ∷ [] }
  reply ← get_upload call.session_id db1
  ok (reply, db1)

continue_session :
    UploadCall → Text → UploadSession → Db → Result ((UploadSession × List UploadChunk) × Db)
unfolding reuse_session
continue_session call path u db = do
  raise_if
      (not (text_eq u.virtual_path path)
        || not (u.expected_size == to_ℕ call.expected_size)
        || not (u.chunk_size == to_ℕ call.chunk_size))
      upload_conflict
  let (row, db1) = reuse_session call path u u.state db
  ok ((row, []), db1)

session_of_key : Text → Db → Option UploadSession
session_of_key key db = find_first (λ u. text_eq key u.idempotency_key) db.upload_sessions

-- The row of a session that was there before is returned with no chunks.
unfoldable pub create_upload : UploadCall → Db → Result ((UploadSession × List UploadChunk) × Db)
unfolding check_upload start_session continue_session session_of_key
create_upload call db = do
  path ← check_upload call
  elim (session_of_key call.idempotency_key db) [
    | none ↦ start_session call path db
    | some u ↦ continue_session call path u db
  ]

-- The database that comes back beside an error is what is committed: a session that is found to be
-- over its time is marked `expired` for good.
unfoldable pub require_open_upload : ℕ → ℕ → Db → Result UploadSession × Db
require_open_upload now id db = elim (session_by_id id db) [
  | none ↦ (err upload_session_not_found, db)
  | some u ↦ elim u.state [
    | expired ↦ (err upload_session_expired, db)
    | committed ↦ (err upload_conflict, db)
    | aborted ↦ (err upload_conflict, db)
    | opened ↦
        if leb u.expires_at now
        then (err upload_session_expired, update_session id (λ s. record s { state = expired }) db)
        else (ok u, db)
  ]
]

-- `(expected_size + chunk_size - 1) // chunk_size`
unfoldable pub chunk_count : UploadSession → ℕ
chunk_count u = (u.expected_size + u.chunk_size - 1) / u.chunk_size

unfoldable pub expected_chunk_size : UploadSession → ℕ → ℕ
unfolding chunk_count
expected_chunk_size u ordinal =
    if ordinal + 1 == chunk_count u then u.expected_size - ordinal * u.chunk_size else u.chunk_size

-- `deduplicated` of the reply stands beside the chunk's identifier
abbrev pub ChunkReply : Type 0
ChunkReply = ℕ × Bool

module _ (p : Primitives) where
  over_quota : Option ℕ → Bytes → Vault → Bool
  over_quota none plaintext v = false
  over_quota (some quota) plaintext v =
      not (exists (p.chunk_mac plaintext) v.blobs)
      && ltb (quota - disk_usage v.blobs) (length plaintext + blob_overhead)

  -- a chunk whose ordinal has no row yet
  unfoldable pub store_upload_chunk : Bytes → ℕ → ℕ → Bytes → Vault → Result ChunkReply × Vault
  unfolding over_quota
  store_upload_chunk nonce session_id ordinal plaintext v =
      let ((stored, created), blobs') = put p nonce (p.chunk_mac plaintext) plaintext v.blobs in
      if over_quota v.db.quota_bytes plaintext v then (err quota_exceeded, v) else (
        ok (p.chunk_mac plaintext, not created),
        record {
          blobs = blobs';
          db = record v.db {
            upload_session_chunks =
                v.db.upload_session_chunks
                ++ record {
                  session_id = session_id;
                  ordinal = ordinal;
                  chunk_id = p.chunk_mac plaintext;
                  plain_size = length plaintext;
                  stored_size = stored;
                }
                  ∷ [];
          };
        },
      )

  unfoldable pub chunk_of_session : ℕ → ℕ → Db → Option UploadChunk
  chunk_of_session session_id ordinal db =
      find_first (λ c. session_id == c.session_id && ordinal == c.ordinal) db.upload_session_chunks

  -- the call once the session is known to be open
  unfoldable pub upload_to_session :
      Bytes → UploadSession → ℕ → Bytes → Vault → Result ChunkReply × Vault
  upload_to_session nonce u ordinal plaintext v =
      if leb (chunk_count u) ordinal || not (length plaintext == expected_chunk_size u ordinal)
      then (err upload_conflict, v)
      else elim (chunk_of_session u.id ordinal v.db) [
        | none ↦ store_upload_chunk nonce u.id ordinal plaintext v
        | some c ↦
            if c.chunk_id == p.chunk_mac plaintext && c.plain_size == length plaintext
            then (ok (c.chunk_id, true), v)
            else (err upload_conflict, v)
      ]

  unfoldable pub upload_chunk : ℕ → Bytes → ℕ → ℤ → Bytes → Vault → Result ChunkReply × Vault
  upload_chunk now nonce session_id (negsuc n) plaintext v = (err value_error, v)
  upload_chunk now nonce session_id (pos ordinal) plaintext v =
      let (r, db1) = require_open_upload now session_id v.db in
      elim r [
        | err e ↦ (err e, record v { db = db1 })
        | ok u ↦ upload_to_session nonce u ordinal plaintext v
      ]

-- the transaction of `abort_upload`
unfoldable pub abort_session : ℕ → Db → Result Db
unfolding session_by_id update_session
abort_session id db = do
  u ← or_raise (session_by_id id db) upload_session_not_found
  elim u.state [
    | committed ↦ err upload_conflict
    | opened ↦ ok (update_session id (λ s. record s { state = aborted }) db)
    | aborted ↦ ok db
    | expired ↦ ok db
  ]

unfoldable pub abort_upload : ℕ → Vault → Result (ℕ × ℕ) × Vault
unfolding abort_session collect_orphan_blobs
abort_upload id v = elim (abort_session id v.db) [
  | err e ↦ (err e, v)
  | ok db1 ↦ let (counts, v1) = collect_orphan_blobs (record v { db = db1 }) in (ok counts, v1)
]

-- `state = 'open' AND expires_at <= ?`
abbrev pub is_overdue : ℕ → UploadSession → Bool
is_overdue now u = is_opened u.state && leb u.expires_at now

-- The result is the number of sessions that expired, and the counts of the collection.
unfoldable pub cleanup_uploads : ℕ → Vault → (ℕ × (ℕ × ℕ)) × Vault
unfolding collect_orphan_blobs
cleanup_uploads now v =
    let overdue = select (is_overdue now) v.db.upload_sessions in
    let db1 : Db = record v.db {
      upload_sessions =
          update_where (is_overdue now) (λ s. record s { state = expired }) v.db.upload_sessions;
    } in
    let (counts, v1) = collect_orphan_blobs (record v { db = db1 }) in
    ((length overdue, counts), v1)
