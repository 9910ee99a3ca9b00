-- ===== src/Sync.antt =====
-- `SyncClient` of psn_drive/sync_client.py: its state, the requests to the node, and the upload of one
-- file. The tables are those of `SyncState`.
pub mod Run
pub mod Kept
pub mod Rows
pub mod Works
pub mod Current
pub mod Counts
pub mod Again
mod Tests
use personal_secure_node.Prelude.{
  ℕ, ◌+◌, ◌*◌, suc, Text, codes, ℤ, pos, negsuc, Bool, true, false, not, ◌&&◌, ◌||◌, Option, none,
  some, List, [], ◌∷◌, ◌++◌, Result, ok, err, DriveError, raise_if, http_client_error, drive_error,
  type_error, ◌==◌, if◌then◌else◌, text_eq, any, take, length,
}
use personal_secure_node.Cipher.{Bytes}
use personal_secure_node.Paths.{slash, parts_of, as_posix, normalize_virtual_path}
use personal_secure_node.Registry.Manifest.{is_blank}
use personal_secure_node.Json.{Json, Fields, integer, text, object, end, field, subscript, iterate}
use personal_secure_node.Vault.Uploads.{default_chunk_size}
use personal_secure_node.Vault.Import.{read_chunks}

-- The fields of `SyncConfig` that the client's methods read.
pub record SyncConfig : Type 0 where
  pub device_id : Text
  pub remote_prefix : Text

pub record Stat : Type 0 where
  pub size : ℕ
  pub mtime_ns : ℕ

-- A file that `scan_files` yields, with what the reads of it return while the client works on it: they
-- may raise, and the file may change in between. The upload reads chunks of `uploaded_content`, and
-- sends each before it reads the next; `read_end` is what the read after the last of them does.
pub record Entry : Type 0 where
  pub relative_path : Text
  pub stat_before : Result Stat
  pub hashed_content : Result Bytes
  pub uploaded_content : Bytes
  pub read_end : Result (Unit {0})
  pub stat_after : Result Stat

-- a row of `synced_files`; the status is "synced" or else "missing"
pub record SyncedFile : Type 0 where
  pub relative_path : Text
  pub size : ℕ
  pub mtime_ns : ℕ
  pub content_hash : Text
  pub remote_path : Text
  pub version_id : Json
  pub synced_at : ℕ
  pub is_synced : Bool

pub record SyncRun : Type 0 where
  pub id : ℕ
  pub started_at : ℕ
  pub finished_at : Option ℕ
  pub scanned : ℕ
  pub uploaded : ℕ
  pub unchanged : ℕ
  pub failed : ℕ
  pub missing : ℕ

pub data Call : Type 0 where
  create_session : Json → Call
  put_chunk : Json → ℕ → Bytes → Call
  commit_session : Json → Call

-- The network between the client and a node with the states `S`: `login_device`, and a request with an
-- access token, whose reply is parsed by `json.loads`. A status of 400 or more is an HTTPClientError.
pub record Network (S : Type 0) : Type 0 where
  pub login_device : S → Result Text × S
  pub request : Text → Call → S → Result Json × S

pub record Client (S : Type 0) : Type 0 where
  pub access_token : Option Text
  pub synced_files : List SyncedFile
  pub sync_runs : List SyncRun
  pub node : S

-- A call that may raise, and keeps what it did until then.
abbrev pub Method : Type 0 → Type 0 → Type 0
Method S A = Client S → Result A × Client S

abbrev pub then_call :
    {S A B : Type 0} → Result A × Client S → (A → Method S B) → Result B × Client S
then_call (ok a, c) next = next a c
then_call (err e, c) next = (err e, c)

infixl 5 ◌>>=◌
unfoldable pub ◌>>=◌ : {S A B : Type 0} → Method S A → (A → Method S B) → Method S B
(first >>= next) c = then_call (first c) next

infixl 5 ◌>>◌
abbrev pub ◌>>◌ : {S B : Type 0} → Method S (Unit {0}) → Method S B → Method S B
first >> next = first >>= λ done. next

unfoldable pub pure : {S A : Type 0} → Result A → Method S A
pure r c = (r, c)

abbrev pub is_unauthorized : DriveError → Bool
is_unauthorized (http_client_error status) = status == 401
is_unauthorized e = false

-- `value[key]`
unfoldable pub item : Text → Json → Result Json
item key (object fs) = subscript key fs
item key value = err type_error

-- `value == t`
abbrev pub is_text : Text → Json → Bool
is_text t (text u) = text_eq t u
is_text t value = false

ordinals_of : List Json → Result (List Json)
ordinals_of [] = ok []
ordinals_of (v ∷ vs) = elim (item (codes "ordinal") v) [
  | err e ↦ err e
  | ok o ↦ elim (ordinals_of vs) [ err e ↦ err e | ok os ↦ ok (o ∷ os) ]
]

is_ordinal : ℕ → Json → Bool
is_ordinal n (integer (pos m)) = n == m
is_ordinal n value = false

-- `remote_path`
unfoldable pub remote_path : SyncConfig → Text → Result Text
remote_path config relative_path =
    let relative = as_posix (parts_of relative_path) in
    if is_blank config.remote_prefix
    then normalize_virtual_path relative
    else normalize_virtual_path (config.remote_prefix ++ slash ∷ relative)

module _ {S : Type 0} (network : Network S) where
  login : Method S Text
  login c =
      let (r, s) = network.login_device c.node in
      elim r [
        | ok token ↦ (ok token, record c { access_token = some token; node = s })
        | err e ↦ (err e, record c { node = s })
      ]

  -- `if not self.access_token: self.login()`
  current_token : Method S Text
  unfolding login
  current_token c = elim c.access_token [
    | none ↦ login c
    | some token ↦ if is_blank token then login c else (ok token, c)
  ]

  send : Call → Text → Method S Json
  send call token c = let (r, s) = network.request token call c.node in (r, record c { node = s })

  -- what follows the first attempt
  retry : Call → Result Json × Client S → Result Json × Client S
  unfolding login send
  retry call (ok value, c) = (ok value, c)
  retry call (err e, c) =
      let again = then_call (login c) (send call) in if is_unauthorized e then again else (err e, c)

  -- `_request_json` and `_put_chunk`
  unfoldable pub request_json : Call → Method S Json
  unfolding current_token send retry
  request_json call = current_token >>= λ token c. retry call (send call token c)

  -- the loop over the chunks of the file, from an ordinal on
  put_missing : Json → List Json → ℕ → List Bytes → Method S (Unit {0})
  unfolding request_json is_ordinal
  put_missing session_id uploaded n [] = pure (ok tt)
  put_missing session_id uploaded n (chunk ∷ chunks) =
      if any (is_ordinal n) uploaded
      then put_missing session_id uploaded (suc n) chunks
      else request_json (put_chunk session_id n chunk) >>= λ reply.
          put_missing session_id uploaded (suc n) chunks

-- `hexdigest` is SHA-256 in hexadecimal, and `encode` UTF-8.
pub record Digests : Type 0 where
  pub hexdigest : Bytes → Text
  pub encode : Text → Bytes

-- the body of the request for a session
unfoldable pub session_body : Digests → SyncConfig → Text → Stat → Text → Json
session_body digests config remote stat content_hash = object (
    field (codes "virtual_path") (text remote) (
      field (codes "expected_size") (integer (pos stat.size)) (
        field (codes "chunk_size") (integer (pos default_chunk_size)) (
          field (codes "idempotency_key")
            (text (
              codes "sync-v1-"
              ++ (config.device_id
                  ++ (codes "-"
                      ++ (take 24 (digests.hexdigest (digests.encode remote))
                          ++ (codes "-" ++ content_hash))))))
            (field (codes "ttl_seconds") (integer (pos (24 * 3600))) end)))))

module _ {S : Type 0} (network : Network S) (digests : Digests) (config : SyncConfig) where
  -- a session that is still open
  send_chunks : Entry → Stat → Json → Method S Json
  unfolding request_json put_missing ordinals_of
  send_chunks entry stat session = do
    rows ← pure (item (codes "uploaded_chunks") session)
    values ← pure (iterate rows)
    uploaded ← pure (ordinals_of values)
    id ← pure (item (codes "id") session)
    put_missing network id uploaded 0
        (read_chunks (length entry.uploaded_content) default_chunk_size entry.uploaded_content)
    pure entry.read_end
    reply ← request_json network (commit_session id)
    after ← pure entry.stat_after
    pure (
        raise_if (not (after.size == stat.size) || not (after.mtime_ns == stat.mtime_ns))
          drive_error)
    pure (item (codes "version_id") reply)

  -- The result is the version on the node.
  unfoldable pub upload_file : Entry → Stat → Text → Method S Json
  unfolding request_json send_chunks
  upload_file entry stat content_hash = do
    remote ← pure (remote_path config entry.relative_path)
    session ←
        request_json network (create_session (session_body digests config remote stat content_hash))
    state ← pure (item (codes "state") session)
    if is_text (codes "committed") state
        then pure (item (codes "committed_version_id") session)
        else send_chunks entry stat session
