-- ===== src/Http/Post/Devices.antt =====
-- The routes of `do_POST` that pair a device, log it in and ask for an action token.
use personal_secure_node.Prelude.{codes, pos, [], ◌∷◌, if◌then◌else◌, ok}
use personal_secure_node.Json.{subscript}
use personal_secure_node.Auth.{claim_pairing}
use personal_secure_node.Auth.Tokens.{create_challenge, exchange_token}
use personal_secure_node.Auth.Admin.{is_admin_action, create_admin_challenge, exchange_admin_token}
use personal_secure_node.Http.{
  Library, Request, Draw, Reply, device, challenge, access_token, admin_challenge, action_token,
}
use personal_secure_node.Http.Body.{
  text_of, path_of, key_of, sized_text, text_or_blank, read_json, identifier,
}
use personal_secure_node.Http.Handler.{
  Handler, ◌>>=◌, ◌>>◌, pure, in_auth, json, rate_limit, authorize,
}

module _ (lib : Library) (rq : Request) (d : Draw) where
  unfoldable pub post_pairings_claim : Handler Reply
  post_pairings_claim = do
    rate_limit lib rq d (codes "pairing") 5 60
    body ← pure (read_json lib rq)
    code_value ← pure (subscript (codes "code") body)
    name_value ← pure (subscript (codes "device_name") body)
    key_value ← pure (subscript (codes "public_key") body)
    name ← pure (text_of name_value)
    key ← pure (key_of key_value)
    code ← pure (text_of code_value)
    row ← in_auth (claim_pairing lib.signatures d.now d.fresh_id (lib.token_of code) name key)
    json 201 (device row)

  unfoldable pub post_auth_challenges : Handler Reply
  post_auth_challenges = do
    rate_limit lib rq d (codes "challenge") 20 60
    body ← pure (read_json lib rq)
    id_value ← pure (subscript (codes "device_id") body)
    device_id ← pure (identifier lib id_value)
    row ← in_auth (create_challenge d.now d.fresh_id d.text_nonce device_id (pos 120))
    json 201 (challenge row)

  unfoldable pub post_auth_tokens : Handler Reply
  post_auth_tokens = do
    rate_limit lib rq d (codes "token") 20 60
    body ← pure (read_json lib rq)
    id_value ← pure (subscript (codes "device_id") body)
    challenge_value ← pure (subscript (codes "challenge_id") body)
    signature_value ← pure (subscript (codes "signature") body)
    device_id ← pure (identifier lib id_value)
    challenge_id ← pure (identifier lib challenge_value)
    signature ← pure (sized_text signature_value)
    row ← in_auth (
        exchange_token lib.signatures (record {
          device_id = device_id;
          challenge_id = challenge_id;
          signature = signature;
          ttl_seconds = pos 900;
          scopes = codes "drive:read" ∷ codes "drive:write" ∷ [];
          now = d.now;
          token_id = d.fresh_id;
          raw_token = d.raw_token;
        }))
    json 201 (access_token row)

  unfoldable pub post_admin_challenges : Handler Reply
  post_admin_challenges = do
    principal ← authorize lib rq d (codes "drive:write")
    rate_limit lib rq d (codes "admin") 10 60
    body ← pure (read_json lib rq)
    action_value ← pure (subscript (codes "action") body)
    resource_value ← pure (subscript (codes "resource") body)
    let action = text_or_blank action_value
    resource ← pure (
        if is_admin_action action
        then path_of resource_value
        else ok (text_or_blank resource_value))
    row ←
        in_auth (create_admin_challenge d.now d.fresh_id d.text_nonce principal.id action resource)
    json 201 (admin_challenge row)

  unfoldable pub post_admin_tokens : Handler Reply
  post_admin_tokens = do
    rate_limit lib rq d (codes "admin-token") 10 60
    body ← pure (read_json lib rq)
    id_value ← pure (subscript (codes "device_id") body)
    challenge_value ← pure (subscript (codes "challenge_id") body)
    signature_value ← pure (subscript (codes "signature") body)
    device_id ← pure (identifier lib id_value)
    challenge_id ← pure (identifier lib challenge_value)
    signature ← pure (sized_text signature_value)
    row ← in_auth (
        exchange_admin_token lib.signatures (record {
          device_id = device_id;
          challenge_id = challenge_id;
          signature = signature;
          now = d.now;
          token_id = d.fresh_id;
          raw_token = d.raw_token;
        }))
    json 201 (action_token row)
