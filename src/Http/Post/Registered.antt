-- ===== src/Http/Post/Registered.antt =====
-- The routes of `do_POST` for the registry of artifacts and for share links.
use personal_secure_node.Prelude.{codes, ◌*◌, Option, some, none}
use personal_secure_node.Json.{Json, text, null, subscript, lookup, is_truthy}
use personal_secure_node.Vault.Shares.{create_share_link, revoke_share_link}
use personal_secure_node.Registry.Register.{register_artifact_manifest, set_artifact_status}
use personal_secure_node.Registry.Listing.{get_artifact}
use personal_secure_node.Registry.Sanctions.{sanction_entity, revoke_sanction}
use personal_secure_node.Http.{
  Library, Request, Draw, Server, Reply, share, revoked, artifact, sanction,
}
use personal_secure_node.Http.Body.{
  text_of, text_or_blank, read_json, identifier, name_of, int_or, int_if,
}
use personal_secure_node.Http.Handler.{Handler, ◌>>=◌, pure, in_db, in_registry, json, authorize}

-- `body.get(key, default)`
abbrev get_or : Json → Option Json → Json
get_or default none = default
get_or default (some v) = v

module _ (lib : Library) (rq : Request) (d : Draw) where
  unfoldable pub post_shares : Handler Reply
  post_shares = do
    principal ← authorize lib rq d (codes "drive:write")
    body ← pure (read_json lib rq)
    path_value ← pure (subscript (codes "virtual_path") body)
    ttl_seconds ← pure (int_or lib (codes "ttl_seconds") (7 * 24 * 60 * 60) body)
    raw ← pure (text_of path_value)
    max_downloads ← pure (int_if lib (lookup (codes "max_downloads") body))
    row ← in_db (
        create_share_link lib.signatures.hash d.now d.fresh_id d.raw_token raw ttl_seconds
          max_downloads)
    json 201 (share row)

  unfoldable pub post_shares_revoke : Handler Reply
  post_shares_revoke = do
    principal ← authorize lib rq d (codes "drive:write")
    body ← pure (read_json lib rq)
    id_value ← pure (subscript (codes "id") body)
    id ← pure (identifier lib id_value)
    done ← in_db (revoke_share_link d.now id)
    json 200 (revoked id)

  unfoldable pub post_plugins_register : Handler Reply
  post_plugins_register = do
    principal ← authorize lib rq d (codes "drive:write")
    body ← pure (read_json lib rq)
    manifest ← pure (subscript (codes "manifest") body)
    id ← in_registry (register_artifact_manifest lib.python manifest d.now)
    item ← λ (s : Server). (get_artifact id s.registry, s)
    json 201 (artifact item)

  unfoldable pub post_plugins_status : Handler Reply
  post_plugins_status = do
    principal ← authorize lib rq d (codes "drive:write")
    body ← pure (read_json lib rq)
    id_value ← pure (subscript (codes "id") body)
    enabled ← pure (subscript (codes "enabled") body)
    name ← pure (name_of lib id_value)
    id ← in_registry (set_artifact_status d.now name (is_truthy lib.python enabled))
    item ← λ (s : Server). (get_artifact id s.registry, s)
    json 200 (artifact item)

  unfoldable pub post_entities_sanctions : Handler Reply
  post_entities_sanctions = do
    principal ← authorize lib rq d (codes "drive:write")
    body ← pure (read_json lib rq)
    id_value ← pure (subscript (codes "entity_id") body)
    let scope = get_or (text (codes "all_children")) (lookup (codes "scope") body)
    let action = get_or (text (codes "deny")) (lookup (codes "action") body)
    let reason = get_or null (lookup (codes "reason") body)
    name ← pure (name_of lib id_value)
    row ←
        in_registry (
          sanction_entity d.now d.fresh_id name (text_or_blank scope) (text_or_blank action) reason)
    json 201 (sanction row)

  unfoldable pub post_entities_sanctions_revoke : Handler Reply
  post_entities_sanctions_revoke = do
    principal ← authorize lib rq d (codes "drive:write")
    body ← pure (read_json lib rq)
    id_value ← pure (subscript (codes "id") body)
    id ← pure (identifier lib id_value)
    done ← in_registry (revoke_sanction d.now id)
    json 200 (revoked id)
