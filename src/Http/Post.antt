-- ===== src/Http/Post.antt =====
-- `do_POST`. The bodies of the routes are in the child modules.
pub mod Devices
pub mod Uploads
pub mod Files
pub mod Registered
use personal_secure_node.Prelude.{
  Text, codes, Bool, true, false, ◌&&◌, List, [], ◌∷◌, text_eq, ◌==◌, if◌then◌else◌,
}
use mathlib.Core.List.{reverse}
use personal_secure_node.Paths.{slash, lstrip, split}
use personal_secure_node.Http.{Library, Request, Draw, Server, Reply, left_out, route_not_found}
use personal_secure_node.Http.Handler.{
  Handler, ◌>>=◌, ◌>>◌, pure, json, rate_limit, authorize, dispatch, handle,
}
use Devices.{
  post_pairings_claim, post_auth_challenges, post_auth_tokens, post_admin_challenges,
  post_admin_tokens,
}
use Registered.{
  post_shares, post_shares_revoke, post_plugins_register, post_plugins_status,
  post_entities_sanctions, post_entities_sanctions_revoke,
}
use Files.{
  post_uploads, post_versions_restore, post_files_move, post_directories, post_files_batch_move,
  post_trash_restore, post_trash_purge, post_files_delete, post_upload_commit, post_upload_abort,
}

-- `path.strip("/")`
unfoldable pub strip_slashes : Text → Text
strip_slashes t = reverse (lstrip (λ c. c == slash) (reverse (lstrip (λ c. c == slash) t)))

module _ (lib : Library) (rq : Request) (d : Draw) where
  -- the guards of the console's routes, whose replies are left out
  unfoldable pub post_console_preflight : Handler Reply
  post_console_preflight = do
    principal ← authorize lib rq d (codes "drive:read")
    rate_limit lib rq d (codes "console") 20 60
    json 200 left_out

  unfoldable pub post_console_diagnostics : Handler Reply
  post_console_diagnostics = do
    principal ← authorize lib rq d (codes "drive:write")
    rate_limit lib rq d (codes "console-diagnostics") 5 60
    json 201 left_out

  unfoldable pub post_routes : List (Text × Handler Reply)
  post_routes =
      (codes "/v1/pairings/claim", post_pairings_claim lib rq d)
      ∷ (codes "/v1/auth/challenges", post_auth_challenges lib rq d)
      ∷ (codes "/v1/auth/tokens", post_auth_tokens lib rq d)
      ∷ (codes "/v1/console/preflight", post_console_preflight)
      ∷ (codes "/v1/console/diagnostics", post_console_diagnostics)
      ∷ (codes "/v1/shares", post_shares lib rq d)
      ∷ (codes "/v1/shares/revoke", post_shares_revoke lib rq d)
      ∷ (codes "/v1/plugins/register", post_plugins_register lib rq d)
      ∷ (codes "/v1/plugins/status", post_plugins_status lib rq d)
      ∷ (codes "/v1/entities/sanctions", post_entities_sanctions lib rq d)
      ∷ (codes "/v1/entities/sanctions/revoke", post_entities_sanctions_revoke lib rq d)
      ∷ (codes "/v1/admin/challenges", post_admin_challenges lib rq d)
      ∷ (codes "/v1/admin/tokens", post_admin_tokens lib rq d)
      ∷ (codes "/v1/uploads", post_uploads lib rq d)
      ∷ (codes "/v1/versions/restore", post_versions_restore lib rq d)
      ∷ (codes "/v1/files/move", post_files_move lib rq d)
      ∷ (codes "/v1/directories", post_directories lib rq d)
      ∷ (codes "/v1/files/batch-move", post_files_batch_move lib rq d)
      ∷ (codes "/v1/trash/restore", post_trash_restore lib rq d)
      ∷ (codes "/v1/trash/purge", post_trash_purge lib rq d)
      ∷ (codes "/v1/files/delete", post_files_delete lib rq d)
      ∷ []

  -- `parts` has four parts, the first two `v1` and `uploads`
  unfoldable pub post_parts : List Text → Handler Reply
  post_parts (a ∷ b ∷ session_id ∷ action ∷ []) =
      if text_eq a (codes "v1") && text_eq b (codes "uploads")
      then (if text_eq action (codes "commit")
          then post_upload_commit lib rq d session_id
          else if text_eq action (codes "abort")
          then post_upload_abort lib rq d session_id
          else json 404 route_not_found)
      else json 404 route_not_found
  post_parts parts = json 404 route_not_found

  unfoldable pub do_post : Server → Reply × Server
  do_post = handle (dispatch rq.path post_routes (post_parts (split (strip_slashes rq.path))))
