-- ===== src/Http/Tests.antt =====
-- A laptop that is logged in deletes a file with an action token and purges it: the theorems at these
-- runs.
pub mod Limits
pub mod Keys
pub mod Access
use personal_secure_node.Prelude.{
  codes, ℕ, ◌≡◌, refl, Text, pos, true, false, none, some, [], ◌∷◌, ok, err, value_error, text_eq,
  find_first, update_where, select, latest, any, length,
}
use personal_secure_node.Json.{text, object, field, end, subscript, lookup}
use personal_secure_node.Cipher.Tests
use personal_secure_node.Auth.{
  AuthDb, Device, AccessToken, ActionToken, device_by_id, is_active_device,
}
use personal_secure_node.Auth.Admin.{consume_action_token, action_token_of, use_action_token}
use personal_secure_node.Schema.{empty_db, File}
use personal_secure_node.Vault.Files.{delete_file, last_deleted}
use personal_secure_node.Vault.Purge.{
  purge_file, purge_rows, drop_all_references, group_uses, collect_garbage, collect_rows,
  delete_rows,
}
use personal_secure_node.Registry.{no_tables}
use personal_secure_node.Http.{Library, Request, Draw, Server, Reply, deleted, purged}
use personal_secure_node.Http.Limiter.{check_events, check, drop_expired, retry_after}
use personal_secure_node.Http.Post.Files.{
  post_files_delete, post_trash_purge, consume_for, required_action_token,
}
use personal_secure_node.Http.Handler.{
  ◌>>=◌, authorize, pure, in_auth, bearer, in_vault, json, rate_limit,
}
use personal_secure_node.Registry.Manifest.{partition}
use personal_secure_node.Auth.Tokens.{verify_token, token_of, has_scope, see_device}
use personal_secure_node.Http.Body.{read_json, object_of, path_of, text_of}
use personal_secure_node.Paths.{lstrip, normalize_virtual_path, strip}
use personal_secure_node.Schema.Statements.{insert_event, live_file, set_deleted_at}
use personal_secure_node.Http.Deletion.{
  IsConsumed, post_files_delete-IsConsumed, post_trash_purge-IsConsumed,
}

-- `json.loads` of the runs: every body is {"virtual_path": "a"}
abbrev pub toy : Library
toy = record {
  python = record { str = λ v. []; int = λ v. err value_error; is_zero = λ r. false };
  signatures = record {
    valid_key = λ key. true;
    verify = λ key signature message. true;
    hex = λ id. id ∷ [];
    hash = λ n. n;
  };
  primitives = Tests.toy;
  json_loads = λ b. some (object (field (codes "virtual_path") (text (codes "a")) end));
  int_of_text = λ t. some (pos 20);
  lower = λ t. t;
  unquote = λ t. t;
  id_of = λ v. 0;
  sql_text = λ v. [];
  token_of = length;
}

abbrev laptop : Device
laptop = record {
  id = 7;
  name = codes "laptop";
  public_key = codes "K";
  is_active = true;
  created_at = 0;
  last_seen_at = none;
  revoked_at = none;
}

-- the token "ten"
abbrev session : AccessToken
session = record {
  id = 1;
  device_id = 7;
  token_hash = 3;
  scopes = codes "drive:read" ∷ codes "drive:write" ∷ [];
  created_at = 0;
  expires_at = 900000000;
  revoked_at = none;
}

-- the token "once" for deleting "a", and the token "purge" for purging it
abbrev permit : ℕ → Text → ActionToken
permit id action = record {
  id = id;
  device_id = 7;
  action = action;
  resource = codes "a";
  token_hash = id;
  created_at = 0;
  expires_at = 300000000;
  used_at = none;
}

abbrev devices : AuthDb
devices = record {
  devices = laptop ∷ [];
  pairing_sessions = [];
  auth_challenges = [];
  access_tokens = session ∷ [];
  admin_challenges = [];
  action_tokens = permit 4 (codes "file.delete") ∷ permit 5 (codes "file.purge") ∷ [];
}

abbrev file_a : File
file_a = record {
  id = 11;
  virtual_path = codes "a";
  current_version_id = none;
  created_at = 0;
  deleted_at = none;
}

abbrev pub server : Server
server = record {
  vault = record { db = record empty_db { files = file_a ∷ [] }; blobs = [] };
  auth = devices;
  registry = no_tables;
  rate_limiter = [];
}

abbrev pub request : Text → Text → Request
request path action_token = record {
  client = codes "c";
  path = path;
  query = [];
  authorization = some (codes "bearer ten");
  content_length = some (codes "20");
  action_token = some action_token;
  body = [];
}

abbrev pub draw : Draw
draw = record {
  now = 100;
  monotonic = 100;
  fresh_id = 20;
  version_id = 21;
  raw_token = 22;
  text_nonce = codes "n";
  nonce = [];
  temporary = λ n. n ∷ [];
}

abbrev pub delete_request : Request
delete_request = request (codes "/v1/files/delete") (codes "once")

abbrev purge_request : Request
purge_request = request (codes "/v1/trash/purge") (codes "purge")

abbrev after_delete : Server
after_delete = (post_files_delete toy delete_request draw server).1

delete_run :
    post_files_delete toy delete_request draw server
    ≡ (ok (record { status_code = 200; content = deleted (codes "a") }), after_delete)
unfolding post_files_delete ◌>>=◌ consume_for authorize check check_events pure partition text_eq
    in_auth verify_token token_of find_first device_by_id has_scope any read_json subscript
    action_token_of consume_action_token use_action_token see_device is_active_device object_of
    path_of text_of bearer in_vault json rate_limit drop_expired retry_after required_action_token
    lookup lstrip normalize_virtual_path strip update_where insert_event live_file set_deleted_at
    delete_file select
delete_run = refl

post_files_delete-IsConsumed_example :
    (path : Text) × (t : Server) × IsConsumed toy delete_request draw
      (codes "file.delete")
      path
      server
      t
    × (delete_file 100 path server.vault.db ≡ ok (tt, after_delete.vault.db))
    × (after_delete.auth ≡ t.auth)
    × (after_delete.registry ≡ no_tables)
    × (◌≡◌ {A = Reply}
        (record { status_code = 200; content = deleted (codes "a") })
        (record { status_code = 200; content = deleted path }))
post_files_delete-IsConsumed_example =
    post_files_delete-IsConsumed toy delete_request draw server after_delete
      (record { status_code = 200; content = deleted (codes "a") }) delete_run

-- the file in the trash
abbrev in_trash : Server
in_trash = record server {
  vault = record {
    db = record empty_db { files = record file_a { deleted_at = some 50 } ∷ [] };
    blobs = [];
  };
}

abbrev after_purge : Server
after_purge = (post_trash_purge toy purge_request draw in_trash).1

purge_run :
    post_trash_purge toy purge_request draw in_trash
    ≡ (ok (record { status_code = 200; content = purged (codes "a", (0, 0)) }), after_purge)
unfolding post_trash_purge ◌>>=◌ consume_for authorize check check_events pure partition text_eq
    in_auth verify_token token_of find_first device_by_id has_scope any read_json subscript
    action_token_of consume_action_token use_action_token see_device is_active_device object_of
    path_of text_of bearer in_vault json rate_limit drop_expired retry_after required_action_token
    lookup lstrip normalize_virtual_path strip update_where insert_event live_file purge_file select
    purge_rows last_deleted latest drop_all_references group_uses collect_garbage collect_rows
    delete_rows
purge_run = refl

post_trash_purge-IsConsumed_example :
    (path : Text) × (t : Server) × (result : Text × (ℕ × ℕ)) × IsConsumed toy purge_request draw
      (codes "file.purge")
      path
      in_trash
      t
    × (purge_file path in_trash.vault ≡ (ok result, after_purge.vault))
    × (after_purge.auth ≡ t.auth)
    × (after_purge.registry ≡ no_tables)
    × (◌≡◌ {A = Reply}
        (record { status_code = 200; content = purged (codes "a", (0, 0)) })
        (record { status_code = 200; content = purged result }))
post_trash_purge-IsConsumed_example =
    post_trash_purge-IsConsumed toy purge_request draw in_trash after_purge
      (record { status_code = 200; content = purged (codes "a", (0, 0)) }) purge_run
