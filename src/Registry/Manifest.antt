-- ===== src/Registry/Manifest.antt =====
-- Reading a manifest: `_entity_from_manifest`, `_permission_from_manifest` and the checks at the
-- start of `register_artifact_manifest`.
use personal_secure_node.Prelude.{
  ℕ, Text, codes, Bool, true, false, not, ◌||◌, Option, none, some, List, [], ◌∷◌, ◌++◌, Result, ok,
  err, raise_if, ◌>>=◌, ◌>>◌, value_error, ◌==◌, if◌then◌else◌, any,
}
use personal_secure_node.Paths.{strip}
use personal_secure_node.Json.{
  Json, Fields, Python, null, text, end, object, lookup, fields_of, iterate, is_truthy, str_of,
}
use personal_secure_node.Registry.{one_of}

abbrev pub entity_types : List Text
entity_types =
    codes "person" ∷ codes "organization" ∷ codes "user" ∷ codes "agent" ∷ codes "unknown" ∷ []

abbrev pub artifact_kinds : List Text
artifact_kinds = codes "plugin" ∷ codes "skill" ∷ codes "app" ∷ codes "work" ∷ []

-- what `_entity_from_manifest` returns
pub record EntityClaim : Type 0 where
  pub id : Text
  pub type : Text
  pub name : Text
  pub parent_id : Option Text
  pub verified : Bool

pub record PermissionClaim : Type 0 where
  pub capability : Text
  pub resource : Text
  pub description : Json

-- what a manifest says, with the checks passed
pub record Claim : Type 0 where
  pub id : Text
  pub name : Text
  pub kind : Text
  pub version : Text
  pub entry : Option Text
  pub publisher : EntityClaim
  pub author : EntityClaim
  pub permissions : List PermissionClaim

abbrev pub is_blank : Text → Bool
is_blank [] = true
is_blank (c ∷ cs) = false

-- `value.partition(":")`: what stands before the first colon, and what stands behind it if there is one
unfoldable pub partition : ℕ → Text → Text × Option Text
partition sep [] = ([], none)
partition sep (c ∷ cs) =
    let (before, rest) = partition sep cs in if c == sep then ([], some cs) else (c ∷ before, rest)

module _ (py : Python) where
  -- `value.get(key, default)` as a text, stripped
  unfoldable pub text_field : Text → Text → Fields → Text
  text_field key default fs = elim (lookup key fs) [
    | none ↦ strip default
    | some v ↦ strip (str_of py v)
  ]

  -- `str(value.get(key) or fallback).strip()`
  unfoldable pub text_or : Text → Text → Fields → Text
  text_or key fallback fs = elim (lookup key fs) [
    | none ↦ strip fallback
    | some v ↦ strip (if is_truthy py v then str_of py v else fallback)
  ]

  -- `str(v).strip() if v else None`
  unfoldable pub text_if : Option Json → Option Text
  text_if none = none
  text_if (some v) = if is_truthy py v then some (strip (str_of py v)) else none

  -- `value.get("parent_id") or value.get("parent")`
  unfoldable pub parent_of : Fields → Option Json
  parent_of fs = elim (lookup (codes "parent_id") fs) [
    | none ↦ lookup (codes "parent") fs
    | some v ↦ if is_truthy py v then some v else lookup (codes "parent") fs
  ]

  -- `value or {}`, whose `.get` must be there
  unfoldable pub fields_or_empty : Option Json → Result Fields
  fields_or_empty none = ok end
  fields_or_empty (some v) = if is_truthy py v then fields_of v else ok end

  unfoldable pub entity_from_manifest : Option Json → Text → Text → Result EntityClaim
  unfolding text_or text_if parent_of fields_or_empty
  entity_from_manifest value fallback_id fallback_name = do
    fs ← fields_or_empty value
    let id = text_or (codes "id") fallback_id fs
    let name = text_or (codes "name") fallback_name fs
    let type_ = text_or (codes "type") (codes "unknown") fs
    raise_if (is_blank id || is_blank name) value_error
    raise_if (not (one_of type_ entity_types)) value_error
    ok (record {
      id = id;
      type = type_;
      name = name;
      parent_id = text_if (parent_of fs);
      verified = elim (lookup (codes "verified") fs) [ none ↦ false | some v ↦ is_truthy py v ];
    })

  abbrev or_star : Text → Text
  or_star [] = codes "*"
  or_star (c ∷ cs) = c ∷ cs

  unfoldable pub permission_from_manifest : Json → Result PermissionClaim
  unfolding partition text_field
  permission_from_manifest (text t) =
      let (capability, resource) = partition b':' t in
      ok (record {
        capability = strip capability;
        resource = elim resource [ none ↦ codes "*" | some r ↦ strip r ];
        description = null;
      })
  permission_from_manifest (object fs) = ok (record {
    capability = text_field (codes "capability") [] fs;
    resource = or_star (text_field (codes "resource") (codes "*") fs);
    description = elim (lookup (codes "description") fs) [ none ↦ null | some v ↦ v ];
  })
  permission_from_manifest value = err value_error

  unfoldable pub permissions_from_manifest : List Json → Result (List PermissionClaim)
  permissions_from_manifest [] = ok []
  permissions_from_manifest (v ∷ vs) = do
    claim ← permission_from_manifest v
    claims ← permissions_from_manifest vs
    ok (claim ∷ claims)

  -- `manifest.get("permissions", [])` in a `for`
  unfoldable pub permission_values : Fields → Result (List Json)
  permission_values fs = elim (lookup (codes "permissions") fs) [
    | none ↦ ok []
    | some v ↦ iterate v
  ]

  -- `register_artifact_manifest` up to the transaction
  unfoldable pub read_manifest : Json → Result Claim
  unfolding text_field text_if permission_values
  read_manifest (object fs) = do
    let id = text_field (codes "id") [] fs
    let name = text_field (codes "name") [] fs
    let kind = text_field (codes "kind") (codes "plugin") fs
    raise_if (is_blank id || is_blank name) value_error
    raise_if (not (one_of kind artifact_kinds)) value_error
    publisher ←
        entity_from_manifest (lookup (codes "publisher") fs) (codes "entity.publisher." ++ id)
          (codes "Unknown Publisher")
    author ← entity_from_manifest (lookup (codes "author") fs) publisher.id publisher.name
    values ← permission_values fs
    permissions ← permissions_from_manifest values
    raise_if (any (λ p. is_blank p.capability) permissions) value_error
    ok (record {
      id = id;
      name = name;
      kind = kind;
      version = text_field (codes "version") (codes "0.1.0") fs;
      entry = text_if (lookup (codes "entry") fs);
      publisher = publisher;
      author = author;
      permissions = permissions;
    })
  read_manifest value = err value_error
