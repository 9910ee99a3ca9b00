-- ===== src/Http/Tests/Access.antt =====
-- Requests of the laptop that is logged in: the theorems on who may do what at them.
use personal_secure_node.Prelude.{
  codes, ◌≡◌, ◌⊎◌, refl, true, false, [], none, text_eq, find_first, update_where, any,
}
use personal_secure_node.Auth.{device_by_id, is_active_device}
use personal_secure_node.Auth.Tokens.{verify_token, token_of, has_scope, see_device}
use personal_secure_node.Registry.Manifest.{partition}
use personal_secure_node.Http.Limiter.{check, check_events, drop_expired, retry_after}
use personal_secure_node.Http.Handler.{
  handle, dispatch, ◌>>=◌, authorize, pure, in_auth, bearer, json, rate_limit, reading, status_of,
}
use personal_secure_node.Http.{Request}
use personal_secure_node.Http.Post.{do_post}
use personal_secure_node.Http.Put.{do_put}
use personal_secure_node.Http.Get.{do_get}
use personal_secure_node.Http.Chains.{IsKept}
use personal_secure_node.Http.Guards.{IsBearer}
use personal_secure_node.Http.Access.{do_post-IsBearer, do_put-IsBearer}
use personal_secure_node.Http.Disclosure.{is_plain, IsEntitled, do_get-IsEntitled}
use personal_secure_node.Http.Tests.{toy, server, request, draw, delete_request}

do_post-IsBearer_example :
    IsKept server (do_post toy delete_request draw server).1
    ⊎ IsBearer toy delete_request draw (codes "drive:write") server
do_post-IsBearer_example = do_post-IsBearer toy delete_request draw server

abbrev chunk_request : Request
chunk_request = request (codes "/v1/uploads/u/chunks/0") []

do_put-IsBearer_example :
    IsKept server (do_put toy chunk_request draw server).1
    ⊎ IsBearer toy chunk_request draw (codes "drive:write") server
do_put-IsBearer_example = do_put-IsBearer toy chunk_request draw server

abbrev list_request : Request
list_request = request (codes "/v1/files") []

do_get-IsEntitled_example :
    (is_plain (do_get toy list_request draw server).0.content ≡ true)
    ⊎ IsEntitled toy list_request draw server
do_get-IsEntitled_example = do_get-IsEntitled toy list_request draw server

-- The laptop is sent the files of the vault, and nobody is sent them without a token.
listed : is_plain (do_get toy list_request draw server).0.content ≡ false
unfolding is_plain do_get handle dispatch text_eq ◌>>=◌ authorize check check_events pure partition
    in_auth verify_token token_of find_first device_by_id has_scope any see_device is_active_device
    update_where bearer json rate_limit drop_expired retry_after reading
listed = refl

refused :
    (do_get toy (record list_request { authorization = none }) draw server).0.status_code ≡ 401
unfolding do_get handle dispatch text_eq ◌>>=◌ authorize check check_events pure partition in_auth
    bearer json rate_limit drop_expired status_of
refused = refl
