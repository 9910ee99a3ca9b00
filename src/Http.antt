-- ===== src/Http.antt =====
-- psn_drive/http_api.py: the rate limiter, the state of `DriveHTTPServer`, and what a request and a
-- reply of `DriveRequestHandler` are.
pub mod Limiter
pub mod Rates
pub mod Retry
pub mod Body
pub mod Handler
pub mod Get
pub mod Post
pub mod Put
pub mod Chains
pub mod Guards
pub mod Access
pub mod Deletion
pub mod Disclosure
mod Tests
use personal_secure_node.Prelude.{ℕ, Text, ℤ, Option, List, Bool, Result, DriveError}
use personal_secure_node.Json.{Json, Python}
use personal_secure_node.Cipher.{Bytes, Primitives}
use personal_secure_node.Auth.{
  Signatures, Device, Challenge, AccessToken, AdminChallenge, ActionToken, AuthDb,
}
use personal_secure_node.Schema.{File, Version, UploadSession, UploadChunk, ShareLink}
use personal_secure_node.Vault.{Vault}
use personal_secure_node.Vault.Files.{Listing}
use personal_secure_node.Vault.Settings.{Status}
use personal_secure_node.Vault.Shares.{ShareState}
use personal_secure_node.Vault.Uploads.{ChunkReply}
use personal_secure_node.Registry
use personal_secure_node.Registry.Listing.{View}
use personal_secure_node.Http.Limiter.{Buckets}

-- What Python's library does: `json.loads` (none where it raises), `int` of a text (none where it
-- raises ValueError), `str.lower` and `unquote`. An identifier or a token that a value spells is the
-- number that stands for it; a value that spells none is one that nothing has. `sql_text` is the text
-- that SQLite compares a number or a Boolean as.
pub record Library : Type 0 where
  pub python : Python
  pub signatures : Signatures
  pub primitives : Primitives
  pub json_loads : Bytes → Option Json
  pub int_of_text : Text → Option ℤ
  pub lower : Text → Text
  pub unquote : Text → Text
  pub id_of : Json → ℕ
  pub sql_text : Json → Text
  pub token_of : Text → ℕ

-- `path` is that of `urlsplit`, and `query` the first value of each name in `parse_qs`. A header that
-- is missing is none; `body` is what the client sends behind the headers.
pub record Request : Type 0 where
  pub client : Text
  pub path : Text
  pub query : List (Text × Text)
  pub authorization : Option Text
  pub content_length : Option Text
  pub action_token : Option Text
  pub body : Bytes

-- What a request reads of the clocks and of `secrets`, `uuid` and `os.urandom`.
pub record Draw : Type 0 where
  pub now : ℕ
  pub monotonic : ℕ
  pub fresh_id : ℕ
  pub version_id : ℕ
  pub raw_token : ℕ
  pub text_nonce : Text
  pub nonce : Bytes
  pub temporary : ℕ → Text

-- `DriveHTTPServer`. The tables of the vault, of the devices and of the registry are one file.
pub record Server : Type 0 where
  pub vault : Vault
  pub auth : AuthDb
  pub registry : Registry.Tables
  pub rate_limiter : Buckets

-- What a reply carries: the value that a method returned, or the exception. `page` stands for the
-- static pages, `left_out` for the console and the browser's listing of directories, which are not
-- modelled.
pub data Content : Type 0 where
  page left_out route_not_found health : Content
  failure : DriveError → Content
  status : Status → Content
  files : List Listing → Content
  versions : List (Version × Bool) → Content
  shares : List (ShareLink × ShareState) → Content
  artifacts : List View → Content
  artifact : View → Content
  sanction : Registry.Sanction → Content
  stream : Version → Result Bytes → Content
  device : Device → Content
  challenge : Challenge → Content
  access_token : AccessToken → Content
  admin_challenge : AdminChallenge → Content
  action_token : ActionToken → Content
  share : ShareLink → Content
  upload : UploadSession × List UploadChunk → Content
  chunk : ChunkReply → Content
  committed : Option ℕ × Bool → Content
  garbage : ℕ × ℕ → Content
  purged : Text × (ℕ × ℕ) → Content
  restored_version : Text → ℕ → Content
  moved : Bool → Content
  moved_files : ℕ → Content
  restored deleted directory : Text → Content
  revoked : ℕ → Content

pub record Reply : Type 0 where
  pub status_code : ℕ
  pub content : Content
