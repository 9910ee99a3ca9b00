-- ===== src/Http/Get.antt =====
-- `do_GET`. The bodies of the static pages, of the console and of the browser's listing are left out;
-- what guards them is not.
use personal_secure_node.Prelude.{
  ℕ, Text, codes, false, ◌||◌, Option, none, some, List, [], ◌∷◌, Result, ok, err, value_error,
  ◌==◌, if◌then◌else◌, text_eq, starts_with, find_first, any, drop, length,
}
use personal_secure_node.Paths.{slash}
use personal_secure_node.Json.{text}
use personal_secure_node.Registry.{one_of}
use personal_secure_node.Registry.Listing.{list_artifacts}
use personal_secure_node.Registry.Manifest.{is_blank}
use personal_secure_node.Vault.Settings
use personal_secure_node.Vault.Files
use personal_secure_node.Vault.Shares.{list_share_links, shared_download_manifest}
use personal_secure_node.Vault.Versions.{list_versions, download_manifest, iter_manifest}
use personal_secure_node.Vault.Uploads.{get_upload}
use personal_secure_node.Http.{
  Library, Request, Draw, Server, Reply, page, left_out, route_not_found, health, status, files,
  versions, shares, artifacts, stream, upload,
}
use personal_secure_node.Http.Handler.{
  Handler, ◌>>=◌, ◌>>◌, pure, reading, in_db, json, rate_limit, authorize, dispatch, handle,
}
use personal_secure_node.Http.Post.{strip_slashes}

-- `query.get(key, [None])[0]`
unfoldable pub query_value : Request → Text → Option Text
query_value rq key = elim (find_first (λ (q : Text × Text). text_eq key q.0) rq.query) [
  | none ↦ none
  | some (k, v) ↦ some v
]

-- `virtual_path` of the query, which must not be empty
unfoldable pub required_path : Request → Result Text
unfolding query_value
required_path rq = elim (query_value rq (codes "path")) [
  | none ↦ err value_error
  | some t ↦ if is_blank t then err value_error else ok t
]

module _ (lib : Library) (rq : Request) (d : Draw) where
  unfoldable pub get_static : Handler Reply
  get_static = do rate_limit lib rq d (codes "static") 120 60; json 200 page

  unfoldable pub get_health : Handler Reply
  get_health = do rate_limit lib rq d (codes "health") 60 60; json 200 health

  unfoldable pub get_status : Handler Reply
  get_status = do
    principal ← authorize lib rq d (codes "drive:read")
    value ← reading (λ s. Settings.status s.vault)
    json 200 (status value)

  unfoldable pub get_console : Handler Reply
  get_console = do
    principal ← authorize lib rq d (codes "drive:read")
    rate_limit lib rq d (codes "console") 60 60
    json 200 left_out

  unfoldable pub get_files : Handler Reply
  get_files = do
    principal ← authorize lib rq d (codes "drive:read")
    rows ← reading (λ s. Files.list_files false s.vault.db)
    json 200 (files rows)

  unfoldable pub get_browse : Handler Reply
  get_browse = do principal ← authorize lib rq d (codes "drive:read"); json 200 left_out

  unfoldable pub get_trash : Handler Reply
  get_trash = do
    principal ← authorize lib rq d (codes "drive:read")
    rows ← reading (λ s. Files.list_deleted_files s.vault.db)
    json 200 (files rows)

  unfoldable pub get_shares : Handler Reply
  unfolding query_value
  get_shares = do
    principal ← authorize lib rq d (codes "drive:read")
    let flag : Text = elim (query_value rq (codes "include_inactive")) [
      | none ↦ codes "false"
      | some t ↦ t
    ]
    let include_inactive = one_of (lib.lower flag) (codes "1" ∷ codes "true" ∷ codes "yes" ∷ [])
    rows ← reading (λ s. list_share_links d.now include_inactive s.vault.db)
    json 200 (shares rows)

  unfoldable pub get_plugins : Handler Reply
  get_plugins = do
    principal ← authorize lib rq d (codes "drive:read")
    rows ← reading (λ s. list_artifacts s.registry)
    json 200 (artifacts rows)

  unfoldable pub get_versions : Handler Reply
  unfolding required_path
  get_versions = do
    principal ← authorize lib rq d (codes "drive:read")
    raw ← pure (required_path rq)
    rows ← λ (s : Server). (list_versions raw s.vault.db, s)
    json 200 (versions rows)

  -- The status line is sent before the chunks are read.
  unfoldable pub get_download : Handler Reply
  unfolding required_path query_value
  get_download = do
    principal ← authorize lib rq d (codes "drive:read")
    raw ← pure (required_path rq)
    let version_id : Option ℕ = elim (query_value rq (codes "version")) [
      | none ↦ none
      | some t ↦ some (lib.id_of (text t))
    ]
    ((file, version), manifest) ← λ (s : Server). (download_manifest raw version_id s.vault.db, s)
    content ← reading (λ s. iter_manifest lib.primitives manifest s.vault.blobs)
    json 200 (stream version content)

  -- `unquote(path.removeprefix(prefix)).strip("/")`, which must be one part
  unfoldable pub last_part : Text → Result Text
  last_part prefix =
      let part = strip_slashes (lib.unquote (drop (length prefix) rq.path)) in
      if is_blank part || any (λ c. c == slash) part then err value_error else ok part

  unfoldable pub get_shared : Handler Reply
  unfolding last_part
  get_shared = do
    rate_limit lib rq d (codes "share-download") 120 60
    token ← pure (last_part (codes "/s/"))
    ((link, version), manifest) ←
        in_db (shared_download_manifest lib.signatures.hash d.now (lib.token_of token))
    content ← reading (λ s. iter_manifest lib.primitives manifest s.vault.blobs)
    json 200 (stream version content)

  unfoldable pub get_upload_session : Handler Reply
  unfolding last_part
  get_upload_session = do
    principal ← authorize lib rq d (codes "drive:write")
    session_id ← pure (last_part (codes "/v1/uploads/"))
    session ← λ (s : Server). (get_upload (lib.id_of (text session_id)) s.vault.db, s)
    json 200 (upload session)

  unfoldable pub get_routes : List (Text × Handler Reply)
  unfolding get_static get_health get_status get_console get_files get_browse get_trash get_shares
      get_plugins get_versions get_download
  get_routes =
      (codes "/", get_static)
      ∷ (codes "/index.html", get_static)
      ∷ (codes "/app.js", get_static)
      ∷ (codes "/styles.css", get_static)
      ∷ (codes "/v1/health", get_health)
      ∷ (codes "/v1/status", get_status)
      ∷ (codes "/v1/console", get_console)
      ∷ (codes "/v1/console/events", get_console)
      ∷ (codes "/v1/files", get_files)
      ∷ (codes "/v1/browse", get_browse)
      ∷ (codes "/v1/trash", get_trash)
      ∷ (codes "/v1/shares", get_shares)
      ∷ (codes "/v1/plugins", get_plugins)
      ∷ (codes "/v1/versions", get_versions)
      ∷ (codes "/v1/download", get_download)
      ∷ []

  -- the routes that are a prefix
  unfoldable pub get_prefixed : Handler Reply
  unfolding get_shared get_upload_session
  get_prefixed =
      if starts_with (codes "/s/") rq.path
      then get_shared
      else if starts_with (codes "/v1/uploads/") rq.path
      then get_upload_session
      else json 404 route_not_found

  unfoldable pub do_get : Server → Reply × Server
  unfolding get_routes get_prefixed
  do_get = handle (dispatch rq.path get_routes get_prefixed)
