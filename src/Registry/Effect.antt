-- ===== src/Registry/Effect.antt =====
-- What `sanction_entity` and `revoke_sanction` do to the effective status of every artifact.
use personal_secure_node.Prelude.{
  ℕ, Text, codes, true, false, not, ◌&&◌, ◌||◌, none, some, List, [], ◌∷◌, ◌++◌, Result, ok,
  >>=-eq-ok, ◌≡◌, refl, ◌==◌, if◌then◌else◌, text_eq, update_where, any, any-append,
  update_where-append, update_where-none, ==_refl, arith,
}
use personal_secure_node.Json.{Json}
use personal_secure_node.Registry.{Entity, Artifact, Sanction, Scope, Action, Tables}
use personal_secure_node.Registry.Listing.{
  is_deny, is_text, reaches_children, denies, denied_by_sanction, effective_status, blocked,
}
use personal_secure_node.Registry.Sanctions.{
  scope_of, action_of, insert_sanction, sanction_entity, is_active, new_sanction, revoke_sanction,
}

scope_of-reaches_children :
    (t : Text) (s : Scope) → scope_of t ≡ ok s → reaches_children s ≡ not (text_eq t (codes "self"))
unfolding scope_of
scope_of-reaches_children t s h = ground arith

action_of-is_deny :
    (t : Text) (a : Action) → action_of t ≡ ok a → is_deny a ≡ text_eq t (codes "deny")
unfolding action_of
action_of-is_deny t a h = ground arith

-- What an accepted sanction adds, whose identifier is fresh.
insert_sanction_lem :
    (s : Sanction) (t t' : Tables)
    → insert_sanction s t ≡ ok t'
    → (t' ≡ record t { sanctions = t.sanctions ++ s ∷ [] })
      × (any (λ u. s.id == u.id) t.sanctions ≡ false)
unfolding insert_sanction
insert_sanction_lem s t t' h = ground arith

-- What `sanction_entity` adds: one active row under a fresh identifier.
abbrev IsAdded : ℕ → Text → Text → Text → Sanction → Tables → Tables → Type 0
IsAdded id target scope action s t t' =
    (t' ≡ record t { sanctions = t.sanctions ++ s ∷ [] })
    × (any (λ u. id == u.id) t.sanctions ≡ false)
    × (s.id ≡ id)
    × (s.target_entity_id ≡ target)
    × (s.revoked_at ≡ none)
    × (reaches_children s.scope ≡ not (text_eq scope (codes "self")))
    × (is_deny s.action ≡ text_eq action (codes "deny"))

sanction_entity-IsAdded :
    (now id : ℕ) (target scope action : Text) (reason : Json) (t t' : Tables) (s : Sanction)
    → sanction_entity now id target scope action reason t ≡ ok (s, t')
    → IsAdded id target scope action s t t'
unfolding sanction_entity new_sanction
sanction_entity-IsAdded now id target scope action reason t t' s h =
    let (sc, e1, k1) = >>=-eq-ok (scope_of scope) _ h in
    let (ac, e2, k2) = >>=-eq-ok (action_of action) _ k1 in
    let (t1, e3, k3) =
      >>=-eq-ok (insert_sanction (new_sanction now id target sc ac reason) t) _ k2 in
    row sc ac t1 e1 e2 e3 k3
  where
    row :
        (sc : Scope) (ac : Action) (t1 : Tables)
        → scope_of scope ≡ ok sc
        → action_of action ≡ ok ac
        → insert_sanction (new_sanction now id target sc ac reason) t ≡ ok t1
        → ◌≡◌ {A = Result (Sanction × Tables)}
            (ok (new_sanction now id target sc ac reason, t1))
            (ok (s, t'))
        → IsAdded id target scope action s t t'
    row sc ac t1 e1 e2 e3 returned =
        let same : s ≡ new_sanction now id target sc ac reason = cc in
        let same_tables : t' ≡ t1 = cc in
        let (added, fresh) =
          insert_sanction_lem (new_sanction now id target sc ac reason) t t1 e3 in
        let base : IsAdded id target scope action (new_sanction now id target sc ac reason) t t1 = (
          added,
          fresh,
          refl,
          refl,
          refl,
          scope_of-reaches_children scope sc e1,
          action_of-is_deny action ac e2,
        ) in
        rw (same, same_tables) base

-- An accepted sanction with the action "deny" blocks exactly the artifacts whose publisher is the
-- entity or, unless its scope is "self", whose publisher's parent is the entity; the effective
-- status of every other artifact, and after any other action of every artifact, stays as it was.
pub sanction_entity-effective_status :
    (now id : ℕ) (target scope action : Text) (reason : Json) (t t' : Tables) (s : Sanction)
    → sanction_entity now id target scope action reason t ≡ ok (s, t')
    → (a : Artifact) (p : Entity)
    → effective_status a p t'.sanctions ≡ (
        if text_eq action (codes "deny")
          && (text_eq target p.id
              || (not (text_eq scope (codes "self")) && is_text target p.parent_id))
        then blocked
        else effective_status a p t.sanctions)
unfolding effective_status denied_by_sanction denies any text_eq
sanction_entity-effective_status now id target scope action reason t t' s h a p =
    let (same, fresh, own, target_is, active, reach, deny_is) =
      sanction_entity-IsAdded now id target scope action reason t t' s h in
    let one : denies p s ≡ (
        text_eq action (codes "deny")
        && (text_eq target p.id
            || (not (text_eq scope (codes "self")) && is_text target p.parent_id))) =
      rw (active, deny_is, target_is, reach) refl in
    rw same (rw any-append (rw one (ground arith)))

-- An identifier that no row has is no active row's.
any_less :
    (id : ℕ) (rows : List Sanction)
    → any (λ u. id == u.id) rows ≡ false
    → any (is_active id) rows ≡ false
unfolding any
any_less id [] h = refl
any_less id (s ∷ rows) h = ground (arith, any_less id rows)

-- A revoked row denies nothing.
effective_status-revoked :
    (a : Artifact) (p : Entity) (rows : List Sanction) (s : Sanction) (later : ℕ)
    → s.revoked_at ≡ some later
    → effective_status a p (rows ++ s ∷ []) ≡ effective_status a p rows
unfolding effective_status denied_by_sanction denies any
effective_status-revoked a p rows s later e = rw any-append (rw e (ground arith))

-- Revoking a sanction that was just set succeeds and gives every artifact the effective status that
-- it had before the sanction, and changes nothing but sanctions.
pub revoke_sanction-sanction_entity :
    (now later id : ℕ) (target scope action : Text) (reason : Json) (t t' : Tables) (s : Sanction)
    → sanction_entity now id target scope action reason t ≡ ok (s, t')
    → (t'' : Tables) × (revoke_sanction later id t' ≡ ok (tt, t''))
      × ((a : Artifact) (p : Entity)
          → effective_status a p t''.sanctions ≡ effective_status a p t.sanctions)
      × (record t'' { sanctions = t.sanctions } ≡ t)
unfolding revoke_sanction any update_where
revoke_sanction-sanction_entity now later id target scope action reason t t' s h =
    let (same, fresh, own, target_is, active, reach, deny_is) =
      sanction_entity-IsAdded now id target scope action reason t t' s h in
    let found : any (is_active id) t'.sanctions ≡ true =
      rw (same, any-append) (rw (own, active, ==_refl) (ground arith)) in
    let others : any (is_active id) t.sanctions ≡ false = any_less id t.sanctions fresh in
    (
      record t { sanctions = t.sanctions ++ record s { revoked_at = some later } ∷ [] },
      rw found (
          rw (same, update_where-append)
            (rw (update_where-none _ _ t.sanctions others) (rw (own, active, ==_refl) refl))),
      λ a p. effective_status-revoked a p t.sanctions _ later refl,
      refl,
    )
