-- ===== src/Sync/Counts.antt =====
-- The report of a run, and the rows that it leaves as synced.
use personal_secure_node.Prelude.{
  ℕ, ◌+◌, Text, Bool, true, List, [], ◌∷◌, map, Result, ok, err, length, length-append, All, ◌≡◌,
  refl, subst, any, arith, All-update_where, text_eq,
}
use personal_secure_node.Sync.{SyncConfig, Entry, SyncedFile, Network, Client, Digests}
use personal_secure_node.Sync.Run.{
  Report, Outcome, was_uploaded, was_unchanged, sync_entry, count_outcome, sync_entries, is_gone,
  no_report, run_unlocked,
}

-- Every file is counted once, and an error is kept for each that failed.
abbrev IsBalanced : ℕ → Report → Type 0
IsBalanced n r =
    (r.scanned ≡ n)
    × (r.scanned ≡ r.uploaded + r.unchanged + r.failed)
    × (length r.errors ≡ r.failed)

module _ {S : Type 0} (network : Network S) (digests : Digests) (config : SyncConfig)
    (full_scan : Bool) (now : ℕ) where
  count_outcome-IsBalanced :
      (n : ℕ) (path : Text) (o : Result Outcome) (r : Report)
      → IsBalanced n r
      → IsBalanced (n + 1) (count_outcome network digests config full_scan now path o r)
  unfolding count_outcome
  count_outcome-IsBalanced n path (ok was_uploaded) r (s, b, e) =
      (omega (arith, s), omega (arith, b), e)
  count_outcome-IsBalanced n path (ok was_unchanged) r (s, b, e) =
      (omega (arith, s), omega (arith, b), e)
  count_outcome-IsBalanced n path (err x) r (s, b, e) =
      (omega (arith, s), omega (arith, b), rw length-append (omega (arith, e)))

  sync_entries-IsBalanced :
      (es : List Entry) (n : ℕ) (r : Report) (c : Client S)
      → IsBalanced n r
      → IsBalanced (n + length es) (sync_entries network digests config full_scan now es r c).0
  unfolding sync_entries
  sync_entries-IsBalanced [] n r c (s, b, e) = (omega (arith, s), b, e)
  sync_entries-IsBalanced (x ∷ es) n r c h =
      let (s, b, e) =
        sync_entries-IsBalanced es (n + 1)
          (count_outcome network digests config full_scan now x.relative_path
            (sync_entry network digests config full_scan now x c).0 r)
          (sync_entry network digests config full_scan now x c).1
          (count_outcome-IsBalanced n x.relative_path
            (sync_entry network digests config full_scan now x c).0 r h) in
      (omega (arith, s), b, e)

  abbrev IsSeen : List Entry → SyncedFile → Type 0
  IsSeen es u =
      u.is_synced ≡ true
      → any (λ p. text_eq p u.relative_path) (map (λ e. e.relative_path) es) ≡ true

  run_unlocked-IsBalanced :
      (run_id finished : ℕ) (es : List Entry) (c : Client S)
      → IsBalanced
          (length es)
          (run_unlocked network digests config full_scan now run_id finished es c).0
  unfolding run_unlocked no_report
  run_unlocked-IsBalanced run_id finished es c =
      let (scanned, balanced, errors) =
        sync_entries-IsBalanced es 0 (no_report network digests config full_scan now) _
          (refl, omega arith, refl) in
      (omega (arith, scanned), balanced, errors)

  run_unlocked-IsSeen :
      (run_id finished : ℕ) (es : List Entry) (c : Client S)
      → All
          (IsSeen es)
          (run_unlocked network digests config full_scan now run_id finished es c).1.synced_files
  unfolding run_unlocked is_gone
  run_unlocked-IsSeen run_id finished es c =
      All-update_where (IsSeen es) _ _ _ (λ x k h. cc h) (λ x k h. ground (arith, h, k))

  -- The report of a run counts every file that was scanned once: as uploaded, as unchanged or, with an
  -- error kept, as failed. Afterwards every row that is still marked as synced is of a scanned file.
  pub run_unlocked-counts :
      (run_id finished : ℕ) (es : List Entry) (c c1 : Client S) (r : Report)
      → run_unlocked network digests config full_scan now run_id finished es c ≡ (r, c1)
      → (r.scanned ≡ length es)
        × (r.scanned ≡ r.uploaded + r.unchanged + r.failed)
        × (length r.errors ≡ r.failed)
        × All
            (λ u.
              u.is_synced ≡ true
              → any (λ p. text_eq p u.relative_path) (map (λ e. e.relative_path) es) ≡ true)
            c1.synced_files
  run_unlocked-counts run_id finished es c c1 r h =
      let (scanned, balanced, errors) =
        subst (λ (p : Report × Client S). IsBalanced (length es) p.0) h
          (run_unlocked-IsBalanced run_id finished es c) in
      (
        scanned,
        balanced,
        errors,
        subst (λ (p : Report × Client S). All (IsSeen es) p.1.synced_files) h
            (run_unlocked-IsSeen run_id finished es c),
      )
