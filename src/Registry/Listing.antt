-- ===== src/Registry/Listing.antt =====
-- `list_artifacts` and `get_artifact`: the state of each artifact under the sanctions.
use personal_secure_node.Prelude.{
  ℕ, Text, Bool, true, false, not, ◌&&◌, ◌||◌, Option, none, some, List, [], ◌∷◌, Result, or_raise,
  file_not_found_in_vault, leb, if◌then◌else◌, text_eq, text_leb, find_first, select, any, sort_by,
  ◌+◌, map,
}
use personal_secure_node.Registry.{
  Entity, Artifact, Permission, Sanction, Scope, Action, Tables, self, children, all_children, deny,
  require_confirmation,
}
use personal_secure_node.Registry.Register.{entity_by_id}

abbrev pub is_null : Option ℕ → Bool
is_null none = true
is_null (some n) = false

abbrev pub is_deny : Action → Bool
is_deny deny = true
is_deny require_confirmation = false

-- `s.scope IN ('children', 'all_children')`
abbrev pub reaches_children : Scope → Bool
reaches_children self = false
reaches_children children = true
reaches_children all_children = true

-- `= NULL` is never true
abbrev pub is_text : Text → Option Text → Bool
is_text t none = false
is_text t (some u) = text_eq t u

-- the WHERE of `denied_by_sanction`, for an artifact of this publisher
unfoldable pub denies : Entity → Sanction → Bool
denies p s =
    is_null s.revoked_at
    && is_deny s.action
    && (text_eq s.target_entity_id p.id
        || (reaches_children s.scope && is_text s.target_entity_id p.parent_id))

unfoldable pub denied_by_sanction : Entity → List Sanction → Bool
denied_by_sanction p ss = any (denies p) ss

-- the sanctions that are shown beside an artifact: active, and on its publisher, its author or the
-- publisher's parent
unfoldable pub concerns : Artifact → Entity → Sanction → Bool
concerns a p s =
    is_null s.revoked_at
    && (text_eq s.target_entity_id a.publisher_id
        || text_eq s.target_entity_id a.author_id
        || is_text s.target_entity_id p.parent_id)

pub data EffectiveStatus : Type 0 where
  blocked enabled disabled : EffectiveStatus

unfoldable pub effective_status : Artifact → Entity → List Sanction → EffectiveStatus
effective_status a p ss =
    if denied_by_sanction p ss then blocked else if a.is_enabled then enabled else disabled

pub record View : Type 0 where
  pub artifact : Artifact
  pub publisher : Entity
  pub author : Option Entity
  pub permissions : List Permission
  pub sanctions : List Sanction
  pub effective_status : EffectiveStatus

unfoldable pub permission_leb : Permission → Permission → Bool
permission_leb p q =
    (text_leb p.capability q.capability && not (text_eq p.capability q.capability))
    || (text_eq p.capability q.capability && text_leb p.resource q.resource)

unfoldable pub view : Tables → Artifact → Entity → View
view t a p = record {
  artifact = a;
  publisher = p;
  author = entity_by_id a.author_id t.entities;
  permissions = sort_by permission_leb (select (λ r. text_eq a.id r.artifact_id) t.permissions);
  sanctions = sort_by (λ s u. leb u.created_at s.created_at) (select (concerns a p) t.sanctions);
  effective_status = effective_status a p t.sanctions;
}

-- the JOIN on the publisher leaves out an artifact whose publisher has no row
unfoldable pub views : Tables → List Artifact → List View
views t [] = []
views t (a ∷ as') =
    let rest = views t as' in
    elim (entity_by_id a.publisher_id t.entities) [ none ↦ rest | some p ↦ view t a p ∷ rest ]

-- COLLATE NOCASE: the 26 letters of ASCII in lower case
unfoldable pub nocase : Text → Text
nocase = map (λ c. if leb b'A' c && leb c b'Z' then c + 32 else c)

unfoldable pub list_artifacts : Tables → List View
list_artifacts t =
    sort_by (λ v w. text_leb (nocase v.artifact.name) (nocase w.artifact.name))
      (views t t.artifacts)

unfoldable pub get_artifact : Text → Tables → Result View
get_artifact id t =
    or_raise (find_first (λ v. text_eq v.artifact.id id) (list_artifacts t)) file_not_found_in_vault
