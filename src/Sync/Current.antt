-- ===== src/Sync/Current.antt =====
-- A run leaves a row with its size and time for every file that did not fail, and a run that finds
-- such rows changes nothing.
use personal_secure_node.Prelude.{
  ℕ, ◌+◌, ◌≤◌, Text, Bool, true, false, List, [], ◌∷◌, map, Result, ok, err, DriveError, All,
  All-map, length, inl, inr, ◌≡◌, refl, ap, subst, ◌∙◌, text_eq, text_eq_iff, text_eq_refl,
  update_where, update_where-find_other, any, arith, Bool-cases,
}
use personal_secure_node.Sync.{
  SyncConfig, Stat, Entry, SyncedFile, Network, Client, Digests, ◌>>=◌, pure,
}
use personal_secure_node.Sync.Run.{
  Report, Outcome, was_uploaded, was_unchanged, row_of, sync_entry, count_outcome, sync_entries,
  is_gone,
}
use personal_secure_node.Sync.Rows.{IsRecorded, IsRecorded-is_fresh}
use personal_secure_node.Sync.Works.{Works, sync_entry-Works}

-- the paths differ from each other
abbrev pub Distinct : List Entry → Type 0
Distinct [] = Unit
Distinct (e ∷ es) = All (λ f. text_eq e.relative_path f.relative_path ≡ false) es × Distinct es

-- Every file has a synced row with its size and its time.
abbrev pub Current : List Entry → List SyncedFile → Type 0
Current es rows =
    All (λ e. (stat : Stat) × (e.stat_before ≡ ok stat) × IsRecorded e.relative_path stat rows) es

module _ {S : Type 0} (network : Network S) (digests : Digests) (config : SyncConfig)
    (full_scan : Bool) (now : ℕ) where
  abbrev counted : Entry → Report → Client S → Report
  counted e r c =
      count_outcome network digests config full_scan now e.relative_path
        (sync_entry network digests config full_scan now e c).0 r

  count_outcome-failed :
      (path : Text) (o : Result Outcome) (r : Report)
      → r.failed ≤ (count_outcome network digests config full_scan now path o r).failed
  unfolding count_outcome
  count_outcome-failed path (ok was_uploaded) r = omega arith
  count_outcome-failed path (ok was_unchanged) r = omega arith
  count_outcome-failed path (err x) r = omega arith

  count_outcome-err :
      (path : Text) (o : Result Outcome) (r : Report) (x : DriveError)
      → o ≡ err x
      → (count_outcome network digests config full_scan now path o r).failed ≡ r.failed + 1
  unfolding count_outcome
  count_outcome-err path o r x h = rw h refl

  sync_entries-failed :
      (es : List Entry) (r : Report) (c : Client S)
      → r.failed ≤ (sync_entries network digests config full_scan now es r c).0.failed
  unfolding sync_entries
  sync_entries-failed [] r c = omega arith
  sync_entries-failed (e ∷ es) r c = omega (
    arith,
    count_outcome-failed e.relative_path (sync_entry network digests config full_scan now e c).0 r,
    sync_entries-failed es (counted e r c) (sync_entry network digests config full_scan now e c).1,
  )

  sync_entries-other :
      (path : Text) (es : List Entry) (r : Report) (c : Client S)
      → All (λ f. text_eq path f.relative_path ≡ false) es
      → row_of path (sync_entries network digests config full_scan now es r c).1.synced_files
        ≡ row_of path c.synced_files
  unfolding sync_entries
  sync_entries-other path [] r c h = refl
  sync_entries-other path (e ∷ es) r c h =
      sync_entries-other path es _ (sync_entry network digests config full_scan now e c).1 h.1
      ∙ one (sync_entry-Works network digests config full_scan now e c)
    where
      one :
          Works e c (sync_entry network digests config full_scan now e c)
          → row_of path (sync_entry network digests config full_scan now e c).1.synced_files
            ≡ row_of path c.synced_files
      one (inl (x, raised, same)) = ap (row_of path) same
      one (inr (stat, e1, recorded, others)) = others path h.0

  pub sync_entries-Current :
      (es : List Entry) (r : Report) (c : Client S)
      → Distinct es
      → (sync_entries network digests config full_scan now es r c).0.failed ≤ r.failed
      → Current es (sync_entries network digests config full_scan now es r c).1.synced_files
  unfolding sync_entries
  sync_entries-Current [] r c d h = tt
  sync_entries-Current (e ∷ es) r c d h = (
    first (sync_entry-Works network digests config full_scan now e c),
    sync_entries-Current es (counted e r c) (sync_entry network digests config full_scan now e c).1
        d.1
        (omega (
          arith,
          h,
          count_outcome-failed e.relative_path
              (sync_entry network digests config full_scan now e c).0 r,
        )),
  )
    where
      rows : List SyncedFile
      rows = (sync_entries network digests config full_scan now (e ∷ es) r c).1.synced_files

      first :
          Works e c (sync_entry network digests config full_scan now e c)
          → (stat : Stat) × (e.stat_before ≡ ok stat) × IsRecorded e.relative_path stat rows
      first (inl (x, raised, same)) = cc (absurd x raised)
        where
          absurd :
              (x : DriveError)
              → (sync_entry network digests config full_scan now e c).0 ≡ err x
              → true ≡ false
          absurd x raised = ground (
            arith,
            h,
            count_outcome-err e.relative_path
                (sync_entry network digests config full_scan now e c).0 r x raised,
            sync_entries-failed es (counted e r c)
                (sync_entry network digests config full_scan now e c).1,
          )
      first (inr (stat, e1, (row, found, synced, size, time), others)) = (
        stat,
        e1,
        (
          row,
          sync_entries-other e.relative_path es (counted e r c)
                (sync_entry network digests config full_scan now e c).1 d.0
              ∙ found,
          synced,
          size,
          time,
        ),
      )

  sync_entry-fresh :
      (e : Entry) (c : Client S) (stat : Stat)
      → e.stat_before ≡ ok stat
      → IsRecorded e.relative_path stat c.synced_files
      → sync_entry network digests config false now e c ≡ (ok was_unchanged, c)
  unfolding sync_entry ◌>>=◌ pure
  sync_entry-fresh e c stat h k =
      rw (h, sync_entry, ◌>>=◌, pure)
        (rw (IsRecorded-is_fresh e.relative_path stat c.synced_files k) refl)

  step :
      (e : Entry) (es : List Entry) (r : Report) (c : Client S) (result : Result Outcome × Client S)
      → sync_entry network digests config false now e c ≡ result
      → sync_entries network digests config false now (e ∷ es) r c
        ≡ sync_entries network digests config false now es
            (count_outcome network digests config false now e.relative_path result.0 r)
            result.1
  unfolding sync_entries
  step e es r c result h = λ i.
      sync_entries network digests config false now es
        (count_outcome network digests config false now e.relative_path (h i).0 r) (h i).1

  -- With every file current, the loop changes nothing and counts unchanged files.
  pub sync_entries-unchanged :
      (es : List Entry) (r : Report) (c : Client S)
      → Current es c.synced_files
      → ((sync_entries network digests config false now es r c).1 ≡ c)
        × ((sync_entries network digests config false now es r c).0.uploaded ≡ r.uploaded)
        × ((sync_entries network digests config false now es r c).0.failed ≡ r.failed)
        × ((sync_entries network digests config false now es r c).0.unchanged
            ≡ r.unchanged + length es)
  unfolding sync_entries
  sync_entries-unchanged [] r c h = (refl, refl, refl, omega arith)
  sync_entries-unchanged (e ∷ es) r c ((stat, h, k), hs) =
      let unchanged = sync_entry-fresh e c stat h k in
      let (same, uploaded, failed, count) =
        sync_entries-unchanged es
          (count_outcome network digests config false now e.relative_path (ok was_unchanged) r) c
          hs in
      unfold count_outcome in
      rw (step e es r c (ok was_unchanged, c) unchanged)
        (same, uploaded, failed, omega (arith, count))

  seen_row :
      (seen : List Text) (rows : List SyncedFile) (path : Text)
      → any (λ p. text_eq p path) seen ≡ true
      → row_of path (
          update_where
            (is_gone network digests config full_scan now seen)
            (λ u. record u { is_synced = false })
            rows)
        ≡ row_of path rows
  unfolding row_of is_gone
  seen_row seen rows path h = update_where-find_other _ _ _ rows apart present
    where
      present :
          (x : SyncedFile)
          → text_eq path x.relative_path ≡ true
          → is_gone network digests config full_scan now seen x ≡ false
      present x k =
          let there : any (λ p. text_eq p x.relative_path) seen ≡ true =
            subst (λ t. any (λ p. text_eq p t) seen ≡ true) ((text_eq_iff path x.relative_path).0 k)
              h in
          ground (arith, there)

      apart :
          (x : SyncedFile)
          → is_gone network digests config full_scan now seen x ≡ true
          → text_eq path x.relative_path ≡ false
      apart x k = elim (Bool-cases (text_eq path x.relative_path)) [
        | inl e ↦ cc (k, present x e)
        | inr e ↦ e
      ]

  pub not_gone :
      (seen : List Text) (rows : List SyncedFile)
      → any (is_gone network digests config full_scan now seen) (
          update_where
            (is_gone network digests config full_scan now seen)
            (λ u. record u { is_synced = false })
            rows)
        ≡ false
  unfolding any update_where is_gone
  not_gone seen [] = refl
  not_gone seen (x ∷ rows) = ground (arith, not_gone seen rows)

  -- marking what is gone leaves the rows of the files that were seen
  pub Current-seen :
      (seen : List Text) (es : List Entry) (rows : List SyncedFile)
      → All (λ e. any (λ p. text_eq p e.relative_path) seen ≡ true) es
      → Current es rows
      → Current es (
          update_where
            (is_gone network digests config full_scan now seen)
            (λ u. record u { is_synced = false })
            rows)
  Current-seen seen [] rows h k = tt
  Current-seen seen (e ∷ es) rows h ((stat, e1, (r, found, synced, size, time)), ks) = (
    (stat, e1, (r, seen_row seen rows e.relative_path h.0 ∙ found, synced, size, time)),
    Current-seen seen es rows h.1 ks,
  )

-- every file's path is among the paths
pub seen-paths :
    (es : List Entry)
    → All (λ e. any (λ p. text_eq p e.relative_path) (map (λ e. e.relative_path) es) ≡ true) es
unfolding any
seen-paths [] = tt
seen-paths (e ∷ es) = (
  rw (text_eq_refl e.relative_path) refl,
  All-map _ _ es (λ f h. rw h (ground arith)) (seen-paths es),
)
