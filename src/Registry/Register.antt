-- ===== src/Registry/Register.antt =====
-- `register_artifact_manifest`: the transaction on a manifest that was read.
use personal_secure_node.Prelude.{
  ℕ, Text, Bool, true, false, not, ◌&&◌, ◌||◌, Option, none, some, List, [], ◌∷◌, ◌++◌, Result, ok,
  raise_if, ◌>>=◌, ◌>>◌, constraint_violated, unsupported_argument, file_not_found_in_vault,
  if◌then◌else◌, text_eq, find_first, select, update_where, any,
}
use personal_secure_node.Json.{Json, Python, array, object}
use personal_secure_node.Registry.{Entity, Artifact, Permission, Tables}
use personal_secure_node.Registry.Manifest.{EntityClaim, PermissionClaim, Claim, read_manifest}

unfoldable pub entity_by_id : Text → List Entity → Option Entity
entity_by_id id es = find_first (λ e. text_eq id e.id) es

unfoldable pub artifact_by_id : Text → List Artifact → Option Artifact
artifact_by_id id as' = find_first (λ a. text_eq id a.id) as'

-- `parent_id REFERENCES entities(id)`, checked when the statement is done: the row's own identifier
-- will do
abbrev pub parent_exists : EntityClaim → List Entity → Bool
parent_exists e es = elim e.parent_id [
  | none ↦ true
  | some p ↦ text_eq p e.id || any (λ x. text_eq p x.id) es
]

-- INSERT INTO entities … ON CONFLICT(id) DO UPDATE
unfoldable pub upsert_entity : EntityClaim → ℕ → List Entity → Result (List Entity)
upsert_entity e now es = do
  raise_if (not (parent_exists e es)) constraint_violated
  ok (
      if any (λ x. text_eq e.id x.id) es
      then update_where (λ x. text_eq e.id x.id)
          (λ x. record x {
            type = e.type;
            name = e.name;
            parent_id = e.parent_id;
            verified = e.verified;
            updated_at = now;
          })
          es
      else es
        ++ record {
          id = e.id;
          type = e.type;
          name = e.name;
          parent_id = e.parent_id;
          verified = e.verified;
          created_at = now;
          updated_at = now;
        }
          ∷ [])

unfoldable pub update_artifact : Claim → Json → ℕ → Artifact → Artifact
update_artifact c manifest now a = record a {
  kind = c.kind;
  name = c.name;
  version = c.version;
  publisher_id = c.publisher.id;
  author_id = c.author.id;
  entry = c.entry;
  manifest = manifest;
  updated_at = now;
}

unfoldable pub new_artifact : Claim → Json → ℕ → Artifact
new_artifact c manifest now = record {
  id = c.id;
  kind = c.kind;
  name = c.name;
  version = c.version;
  publisher_id = c.publisher.id;
  author_id = c.author.id;
  entry = c.entry;
  is_enabled = false;
  manifest = manifest;
  created_at = now;
  updated_at = now;
}

-- INSERT INTO artifacts … ON CONFLICT(id) DO UPDATE, which leaves the status as it is. The status of
-- an insert is that of the row, or else "disabled".
unfoldable pub upsert_artifact : Claim → Json → ℕ → List Artifact → List Artifact
upsert_artifact c manifest now as' =
    if any (λ a. text_eq c.id a.id) as'
    then update_where (λ a. text_eq c.id a.id) (update_artifact c manifest now) as'
    else as' ++ new_artifact c manifest now ∷ []

-- the types that the SQLite module takes for a parameter
abbrev pub is_bindable : Json → Bool
is_bindable (array vs) = false
is_bindable (object fs) = false
is_bindable value = true

-- the INSERTs into `artifact_permissions`, whose primary key is the artifact, capability and resource
unfoldable pub insert_permissions :
    Text → List PermissionClaim → List Permission → Result (List Permission)
insert_permissions id [] rows = ok rows
insert_permissions id (p ∷ ps) rows = do
  raise_if (not (is_bindable p.description)) unsupported_argument
  raise_if
      (any
        (λ r.
          text_eq id r.artifact_id
          && text_eq p.capability r.capability
          && text_eq p.resource r.resource)
        rows)
      constraint_violated
  insert_permissions id ps (
      rows
      ++ record {
        artifact_id = id;
        capability = p.capability;
        resource = p.resource;
        description = p.description;
      }
        ∷ [])

-- the transaction; an exception leaves the tables as they were
unfoldable pub register_claim : Claim → Json → ℕ → Tables → Result Tables
register_claim c manifest now t = do
  es1 ← upsert_entity c.publisher now t.entities
  es2 ← (if text_eq c.author.id c.publisher.id then ok es1 else upsert_entity c.author now es1)
  permissions ←
      insert_permissions c.id c.permissions
        (select (λ r. not (text_eq c.id r.artifact_id)) t.permissions)
  ok (record t {
    entities = es2;
    artifacts = upsert_artifact c manifest now t.artifacts;
    permissions = permissions;
  })

-- `register_artifact_manifest` up to the commit; the reply is `get_artifact` of the identifier
unfoldable pub register_artifact_manifest : Python → Json → ℕ → Tables → Result (Text × Tables)
register_artifact_manifest py manifest now t = do
  c ← read_manifest py manifest
  t1 ← register_claim c manifest now t
  ok (c.id, t1)

-- `set_artifact_status` up to the commit
unfoldable pub set_artifact_status : ℕ → Text → Bool → Tables → Result (Text × Tables)
set_artifact_status now id enabled t = do
  raise_if (not (any (λ a. text_eq id a.id) t.artifacts)) file_not_found_in_vault
  ok (
    id,
    record t {
      artifacts =
          update_where (λ a. text_eq id a.id)
            (λ a. record a { is_enabled = enabled; updated_at = now }) t.artifacts;
    },
  )
