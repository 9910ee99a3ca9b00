-- ===== src/Registry/Sanctions.antt =====
-- `sanction_entity` and `revoke_sanction`.
use personal_secure_node.Prelude.{
  ℕ, Text, codes, Bool, not, ◌&&◌, none, some, [], ◌∷◌, ◌++◌, Result, ok, err, raise_if, ◌>>=◌,
  ◌>>◌, value_error, file_not_found_in_vault, constraint_violated, unsupported_argument, ◌==◌,
  if◌then◌else◌, text_eq, update_where, any,
}
use personal_secure_node.Json.{Json}
use personal_secure_node.Registry.{
  Sanction, Scope, Action, Tables, self, children, all_children, deny, require_confirmation,
}
use personal_secure_node.Registry.Register.{is_bindable}
use personal_secure_node.Registry.Listing.{is_null}

unfoldable pub scope_of : Text → Result Scope
scope_of t =
    if text_eq t (codes "self")
    then ok self
    else if text_eq t (codes "children")
    then ok children
    else if text_eq t (codes "all_children")
    then ok all_children
    else err value_error

unfoldable pub action_of : Text → Result Action
action_of t =
    if text_eq t (codes "deny")
    then ok deny
    else if text_eq t (codes "require_confirmation")
    then ok require_confirmation
    else err value_error

-- the transaction, on a scope and an action that the method accepts; `id` is fresh
unfoldable pub insert_sanction : Sanction → Tables → Result Tables
insert_sanction s t = do
  raise_if (not (any (λ e. text_eq s.target_entity_id e.id) t.entities)) file_not_found_in_vault
  raise_if (not (is_bindable s.reason)) unsupported_argument
  raise_if (any (λ u. s.id == u.id) t.sanctions) constraint_violated
  ok (record t { sanctions = t.sanctions ++ s ∷ [] })

unfoldable pub new_sanction : ℕ → ℕ → Text → Scope → Action → Json → Sanction
new_sanction now id entity_id scope action reason = record {
  id = id;
  target_entity_id = entity_id;
  scope = scope;
  action = action;
  reason = reason;
  created_at = now;
  revoked_at = none;
}

unfoldable pub sanction_entity :
    ℕ → ℕ → Text → Text → Text → Json → Tables → Result (Sanction × Tables)
sanction_entity now id entity_id scope action reason t = do
  sc ← scope_of scope
  ac ← action_of action
  t1 ← insert_sanction (new_sanction now id entity_id sc ac reason) t
  ok (new_sanction now id entity_id sc ac reason, t1)

-- `id = ? AND revoked_at IS NULL`
abbrev pub is_active : ℕ → Sanction → Bool
is_active id s = id == s.id && is_null s.revoked_at

unfoldable pub revoke_sanction : ℕ → ℕ → Tables → Result (Unit {0} × Tables)
revoke_sanction now id t = do
  raise_if (not (any (is_active id) t.sanctions)) file_not_found_in_vault
  ok (
    tt,
    record t {
      sanctions = update_where (is_active id) (λ s. record s { revoked_at = some now }) t.sanctions;
    },
  )
