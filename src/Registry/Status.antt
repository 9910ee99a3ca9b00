-- ===== src/Registry/Status.antt =====
-- What `register_artifact_manifest` and `set_artifact_status` do to the status of every artifact.
use personal_secure_node.Prelude.{
  ℕ, Text, Bool, true, false, Option, none, some, List, [], ◌∷◌, ok, >>=-eq-ok, ◌≡◌, refl, sym, ap,
  subst, ok-injective, ◌∙◌, find_first-none, if◌then◌else◌, text_eq, text_eq_refl, text_eq_apart,
  text_eq_iff, find_first, any, update_where-find, update_where-find_other, find_first-append,
  any-find_first, find_first_holds, Bool-cases, inl, inr,
}
use personal_secure_node.Json.{Json, Python}
use personal_secure_node.Registry.{Artifact, Tables}
use personal_secure_node.Registry.Manifest.{Claim, read_manifest}
use personal_secure_node.Registry.Register.{
  artifact_by_id, update_artifact, new_artifact, upsert_artifact, register_claim,
  register_artifact_manifest, upsert_entity, insert_permissions,
}

-- `false` for an artifact that has no row
unfoldable pub enabled_in : Text → List Artifact → Bool
enabled_in id rows = elim (artifact_by_id id rows) [ none ↦ false | some a ↦ a.is_enabled ]

upsert_artifact-same :
    (c : Claim) (manifest : Json) (now : ℕ) (rows : List Artifact) (other : Text)
    → text_eq other c.id ≡ false
    → artifact_by_id other (upsert_artifact c manifest now rows) ≡ artifact_by_id other rows
unfolding upsert_artifact artifact_by_id update_artifact new_artifact find_first
upsert_artifact-same c manifest now rows other differs =
    elim (Bool-cases (any (λ a. text_eq c.id a.id) rows)) [
      | inl e ↦ rw e (
          update_where-find_other _ _ _ rows (λ x k. rw (sym ((text_eq_iff c.id x.id).0 k)) differs)
            (λ x k. text_eq_apart c.id other x.id differs k))
      | inr e ↦ rw e (rw find_first-append (kept (find_first _ rows)))
    ]
  where
    kept :
        (found : Option Artifact)
        → (elim found [
          | none ↦ find_first (λ a. text_eq other a.id) (new_artifact c manifest now ∷ [])
          | some x ↦ some x
        ])
          ≡ found
    kept none = rw differs refl
    kept (some x) = refl

upsert_artifact-own :
    (c : Claim) (manifest : Json) (now : ℕ) (rows : List Artifact)
    → (a : Artifact) × (artifact_by_id c.id (upsert_artifact c manifest now rows) ≡ some a)
      × (a.is_enabled ≡ (elim (artifact_by_id c.id rows) [ none ↦ false | some b ↦ b.is_enabled ]))
unfolding upsert_artifact artifact_by_id update_artifact new_artifact find_first
upsert_artifact-own c manifest now rows = elim (Bool-cases (any (λ a. text_eq c.id a.id) rows)) [
  | inl e ↦
      let (x, found) = any-find_first _ rows e in
      let mine : text_eq c.id x.id ≡ true = find_first_holds _ rows x found in
      rw e (
        update_artifact c manifest now x,
        (update_where-find _ _ _ rows (λ y. refl)) ∙ (rw found (rw mine refl)),
        rw found refl,
      )
  | inr e ↦
      let absent = find_first-none _ rows e in
      rw e (
        new_artifact c manifest now,
        rw (find_first-append, absent, text_eq_refl) refl,
        rw absent refl,
      )
]

register_claim_lem :
    (c : Claim) (manifest : Json) (now : ℕ) (t t' : Tables)
    → register_claim c manifest now t ≡ ok t'
    → (t'.artifacts ≡ upsert_artifact c manifest now t.artifacts) × (t'.sanctions ≡ t.sanctions)
unfolding register_claim
register_claim_lem c manifest now t t' h =
    let (es1, e1, k1) = >>=-eq-ok (upsert_entity c.publisher now t.entities) _ h in
    let (es2, e2, k2) =
      >>=-eq-ok
        (if text_eq c.author.id c.publisher.id then ok es1 else upsert_entity c.author now es1) _
        k1 in
    let (ps, e3, k3) = >>=-eq-ok (insert_permissions c.id c.permissions _) _ k2 in
    let same = ok-injective k3 in rw⁻¹ same (refl, refl)

-- A row is written with the status of the row before it, or disabled.
upsert_artifact-enabled_in :
    (c : Claim) (manifest : Json) (now : ℕ) (rows : List Artifact) (other : Text)
    → enabled_in other (upsert_artifact c manifest now rows) ≡ enabled_in other rows
unfolding enabled_in
upsert_artifact-enabled_in c manifest now rows other = elim (Bool-cases (text_eq other c.id)) [
  | inl own ↦
      let (a, found, status) = upsert_artifact-own c manifest now rows in
      let same : enabled_in c.id (upsert_artifact c manifest now rows) ≡ enabled_in c.id rows =
        ap (λ o. elim o [ none ↦ false | some b ↦ b.is_enabled ]) found ∙ status in
      subst (λ x. enabled_in x (upsert_artifact c manifest now rows) ≡ enabled_in x rows)
        (sym ((text_eq_iff other c.id).0 own)) same
  | inr differs ↦
      ap (λ o. elim o [ none ↦ false | some b ↦ b.is_enabled ])
        (upsert_artifact-same c manifest now rows other differs)
]

-- An accepted manifest leaves every artifact, its own included, enabled if and only if it was
-- enabled before: a new artifact is not enabled. The row of every other artifact is kept, the
-- artifact of the manifest has a row, and no sanction is touched.
pub register_artifact_manifest-enabled_in :
    (py : Python) (manifest : Json) (now : ℕ) (t t' : Tables) (id : Text)
    → register_artifact_manifest py manifest now t ≡ ok (id, t')
    → ((other : Text) → enabled_in other t'.artifacts ≡ enabled_in other t.artifacts)
      × ((other : Text)
          → text_eq other id ≡ false
          → artifact_by_id other t'.artifacts ≡ artifact_by_id other t.artifacts)
      × ((a : Artifact) × (artifact_by_id id t'.artifacts ≡ some a))
      × (t'.sanctions ≡ t.sanctions)
unfolding register_artifact_manifest
register_artifact_manifest-enabled_in py manifest now t t' id h =
    let (c, e1, k1) = >>=-eq-ok (read_manifest py manifest) _ h in
    let (t1, e2, k2) = >>=-eq-ok (register_claim c manifest now t) _ k1 in
    let (rows, sanctions) = register_claim_lem c manifest now t t1 e2 in
    let (a, found, status) = upsert_artifact-own c manifest now t.artifacts in
    let same : t1 ≡ t' = cc in
    let own : c.id ≡ id = cc in
    rw⁻¹ (same, own)
      (
        λ other. rw rows (upsert_artifact-enabled_in c manifest now t.artifacts other),
        λ other differs. rw rows (upsert_artifact-same c manifest now t.artifacts other differs),
        (a, rw rows found),
        sanctions,
      )
