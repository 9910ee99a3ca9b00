-- ===== src/Registry/Tests.antt =====
-- A publisher with a parent registers a plugin, which is enabled, blocked and released: runs, and the
-- theorems at those runs.
use personal_secure_node.Prelude.{
  codes, ◌≡◌, refl, Text, true, false, none, some, List, [], ◌∷◌, ok, err, map, if◌then◌else◌, ◌||◌,
  any, update_where, find_first, value_error, Result, select, text_eq, sort_by, insert_by, text_leb,
}
use personal_secure_node.Json.{
  Json, Fields, Python, null, text, array, nil, cons, object, end, field, lookup, str_of, is_truthy,
  fields_of, iterate, characters, items, keys,
}
use personal_secure_node.Registry.{Tables, Entity, Artifact, Sanction, self, deny, no_tables}
use personal_secure_node.Registry.Register.{
  artifact_by_id, register_artifact_manifest, set_artifact_status, entity_by_id, register_claim,
  upsert_entity, upsert_artifact, update_artifact, new_artifact, insert_permissions,
}
use personal_secure_node.Registry.Listing.{
  is_text, list_artifacts, EffectiveStatus, effective_status, blocked, enabled, disabled, views,
  concerns, denied_by_sanction, denies, nocase, permission_leb, view,
}
use personal_secure_node.Registry.Sanctions.{
  sanction_entity, revoke_sanction, scope_of, action_of, insert_sanction, new_sanction,
}
use personal_secure_node.Registry.Effect.{
  sanction_entity-effective_status, revoke_sanction-sanction_entity,
}
use personal_secure_node.Registry.Status.{register_artifact_manifest-enabled_in, enabled_in}
use personal_secure_node.Registry.Manifest.{
  read_manifest, entity_from_manifest, permissions_from_manifest, permission_from_manifest,
  fields_or_empty, parent_of, partition, permission_values, text_field, text_if, text_or,
}
use personal_secure_node.Paths.{strip}

-- No value of the runs is made a text or a number.
abbrev toy : Python
toy = record { str = λ v. []; int = λ v. err value_error; is_zero = λ r. false }

abbrev subject : Text → Fields → Json
subject id more =
    object (field (codes "id") (text id) (field (codes "name") (text (codes "N")) more))

abbrev vendor : Json
vendor = subject (codes "V") end

abbrev studio : Json
studio = subject (codes "S") (field (codes "parent_id") (text (codes "V")) end)

abbrev plugin : Text → Json → Json
plugin id publisher = subject id (
    field (codes "publisher") publisher
      (field (codes "permissions") (array (cons (text (codes "read:/a")) nil)) end))

abbrev registered : Text → Json → Tables → Tables
registered id publisher t = elim (register_artifact_manifest toy (plugin id publisher) 5 t) [
  | ok (name, t') ↦ t'
  | err e ↦ no_tables
]

-- `v` of the vendor, and `s` of its studio, enabled
abbrev installed : Tables
installed =
    elim (set_artifact_status 6 (codes "s") true
      (registered (codes "s") studio (registered (codes "v") vendor no_tables))) [
        | ok (name, t) ↦ t
        | err e ↦ no_tables
      ]

abbrev banned : Text → Text → Result (Sanction × Tables)
banned target scope = sanction_entity 7 1 target scope (codes "deny") null installed

abbrev tables_of : Result (Sanction × Tables) → Tables
tables_of (ok (s, t)) = t
tables_of (err e) = no_tables

abbrev row_of : Result (Sanction × Tables) → Sanction
row_of (ok (s, t)) = s
row_of (err e) = record {
  id = 0;
  target_entity_id = [];
  scope = self;
  action = deny;
  reason = null;
  created_at = 0;
  revoked_at = none;
}

abbrev statuses : Tables → List EffectiveStatus
statuses t = map (λ v. v.effective_status) (list_artifacts t)

-- The studio's plugin is enabled, and blocked while its vendor's children are.
blocked_while_banned :
    (statuses installed ≡ disabled ∷ enabled ∷ [])
    × (statuses (tables_of (banned (codes "V") (codes "self"))) ≡ blocked ∷ enabled ∷ [])
    × (statuses (tables_of (banned (codes "V") (codes "children"))) ≡ blocked ∷ blocked ∷ [])
unfolding list_artifacts sort_by insert_by views set_artifact_status any register_artifact_manifest
    read_manifest lookup text_eq strip str_of entity_from_manifest is_truthy fields_of iterate
    permissions_from_manifest permission_from_manifest characters items keys find_first select
    update_where text_leb concerns denied_by_sanction denies effective_status nocase permission_leb
    view fields_or_empty parent_of partition permission_values text_field text_if text_or
    entity_by_id register_claim upsert_entity upsert_artifact update_artifact new_artifact
    insert_permissions sanction_entity scope_of action_of insert_sanction new_sanction
blocked_while_banned = (refl, refl, refl)

abbrev studio_row : Entity
studio_row = record {
  id = codes "S";
  type = codes "unknown";
  name = codes "N";
  parent_id = some (codes "V");
  verified = false;
  created_at = 5;
  updated_at = 5;
}

abbrev plugin_row : Artifact
plugin_row = record {
  id = codes "s";
  kind = codes "plugin";
  name = codes "N";
  version = codes "0.1.0";
  publisher_id = codes "S";
  author_id = codes "S";
  entry = none;
  is_enabled = true;
  manifest = null;
  created_at = 5;
  updated_at = 6;
}

sanction_entity-effective_status_example :
    effective_status plugin_row studio_row
      (tables_of (banned (codes "V") (codes "children"))).sanctions
    ≡ (if text_eq (codes "V") studio_row.id || is_text (codes "V") studio_row.parent_id
        then blocked
        else effective_status plugin_row studio_row installed.sanctions)
unfolding list_artifacts sort_by insert_by views set_artifact_status any register_artifact_manifest
    read_manifest lookup text_eq strip str_of entity_from_manifest is_truthy fields_of iterate
    permissions_from_manifest permission_from_manifest characters items keys find_first select
    update_where text_leb concerns denied_by_sanction denies effective_status nocase permission_leb
    view fields_or_empty parent_of partition permission_values text_field text_if text_or
    entity_by_id register_claim upsert_entity upsert_artifact update_artifact new_artifact
    insert_permissions sanction_entity scope_of action_of insert_sanction new_sanction
sanction_entity-effective_status_example =
    sanction_entity-effective_status 7 1 (codes "V") (codes "children") (codes "deny") null
      installed (tables_of (banned (codes "V") (codes "children")))
      (row_of (banned (codes "V") (codes "children"))) refl plugin_row studio_row

revoke_sanction-sanction_entity_example :
    (t : Tables) × (revoke_sanction 9 1 (tables_of (banned (codes "V") (codes "children")))
      ≡ ok (tt, t))
    × ((a : Artifact) (p : Entity)
        → effective_status a p t.sanctions ≡ effective_status a p installed.sanctions)
    × (record t { sanctions = installed.sanctions } ≡ installed)
unfolding list_artifacts sort_by insert_by views set_artifact_status any register_artifact_manifest
    read_manifest lookup text_eq strip str_of entity_from_manifest is_truthy fields_of iterate
    permissions_from_manifest permission_from_manifest characters items keys find_first select
    update_where text_leb concerns denied_by_sanction denies effective_status nocase permission_leb
    view fields_or_empty parent_of partition permission_values text_field text_if text_or
    entity_by_id register_claim upsert_entity upsert_artifact update_artifact new_artifact
    insert_permissions sanction_entity scope_of action_of insert_sanction new_sanction
revoke_sanction-sanction_entity_example =
    revoke_sanction-sanction_entity 7 9 1 (codes "V") (codes "children") (codes "deny") null
      installed (tables_of (banned (codes "V") (codes "children")))
      (row_of (banned (codes "V") (codes "children"))) refl

-- The studio's plugin is registered again, enabled as it is.
abbrev again : Tables
again = registered (codes "s") vendor installed

register_artifact_manifest-enabled_in_example :
    ((other : Text) → enabled_in other again.artifacts ≡ enabled_in other installed.artifacts)
    × ((other : Text)
        → text_eq other (codes "s") ≡ false
        → artifact_by_id other again.artifacts ≡ artifact_by_id other installed.artifacts)
    × ((a : Artifact) × (artifact_by_id (codes "s") again.artifacts ≡ some a))
    × (again.sanctions ≡ installed.sanctions)
unfolding list_artifacts sort_by insert_by views set_artifact_status any register_artifact_manifest
    read_manifest lookup text_eq strip str_of entity_from_manifest is_truthy fields_of iterate
    permissions_from_manifest permission_from_manifest characters items keys find_first select
    update_where text_leb concerns denied_by_sanction denies effective_status nocase permission_leb
    view fields_or_empty parent_of partition permission_values text_field text_if text_or
    entity_by_id register_claim upsert_entity upsert_artifact update_artifact new_artifact
    insert_permissions sanction_entity scope_of action_of insert_sanction new_sanction
register_artifact_manifest-enabled_in_example =
    register_artifact_manifest-enabled_in toy (plugin (codes "s") vendor) 5 installed again
      (codes "s") refl
