-- ===== src/Sync/Again.antt =====
-- A run after a run in which no file failed: what the first leaves for the second.
use personal_secure_node.Prelude.{
  ℕ, Bool, false, List, [], ◌∷◌, map, length, ◌≡◌, refl, sym, ap, subst, ◌∙◌, select, update_where,
  update_where-none, select-none, any, arith,
}
use personal_secure_node.Sync.{SyncConfig, Entry, SyncedFile, Network, Client, Digests}
use personal_secure_node.Sync.Run.{Report, is_gone, no_report, run_unlocked}
use personal_secure_node.Sync.Rows.{IsRecorded}
use personal_secure_node.Sync.Current.{
  Distinct, Current, sync_entries-Current, sync_entries-unchanged, Current-seen, not_gone,
  seen-paths,
}

module _ {S : Type 0} (network : Network S) (digests : Digests) (config : SyncConfig)
    (later : Entry → Entry) (same_path : (e : Entry) → (later e).relative_path ≡ e.relative_path)
    (same_stat : (e : Entry) → (later e).stat_before ≡ e.stat_before) where
  seen-later :
      (es : List Entry) → map (λ e. e.relative_path) (map later es) ≡ map (λ e. e.relative_path) es
  seen-later [] = refl
  seen-later (e ∷ es) = λ i. same_path e i ∷ seen-later es i

  length-later : (es : List Entry) → length (map later es) ≡ length es
  length-later [] = refl
  length-later (e ∷ es) = omega (arith, length-later es)

  Current-later :
      (es : List Entry) (rows : List SyncedFile) → Current es rows → Current (map later es) rows
  Current-later [] rows h = tt
  Current-later (e ∷ es) rows ((stat, e1, recorded), hs) = (
    (stat, same_stat e ∙ e1, subst (λ t. IsRecorded t stat rows) (sym (same_path e)) recorded),
    Current-later es rows hs,
  )

  run_unlocked-Current :
      (full_scan : Bool) (now run_id finished : ℕ) (es : List Entry) (c : Client S)
      → Distinct es
      → (run_unlocked network digests config full_scan now run_id finished es c).0.failed ≡ 0
      → Current es
          (run_unlocked network digests config full_scan now run_id finished es c).1.synced_files
  unfolding run_unlocked no_report
  run_unlocked-Current full_scan now run_id finished es c d h =
      Current-seen network digests config full_scan now (map (λ e. e.relative_path) es) es _
        (seen-paths es)
        (sync_entries-Current network digests config full_scan now es _ _ d (omega (arith, h)))

  -- what a run finds and leaves when nothing has to be done
  abbrev IsQuiet : ℕ → Client S → Report × Client S → Type 0
  IsQuiet n c result =
      (result.0.uploaded ≡ 0)
      × (result.0.failed ≡ 0)
      × (result.0.missing ≡ 0)
      × (result.0.unchanged ≡ n)
      × (result.1.node ≡ c.node)
      × (result.1.access_token ≡ c.access_token)
      × (result.1.synced_files ≡ c.synced_files)

  run_unlocked-gone :
      (full_scan : Bool) (now now' run_id finished : ℕ) (es : List Entry) (c : Client S)
      → any
          (is_gone network digests config false now' (map (λ e. e.relative_path) es))
          (run_unlocked network digests config full_scan now run_id finished es c).1.synced_files
        ≡ false
  unfolding run_unlocked is_gone
  run_unlocked-gone full_scan now now' run_id finished es c =
      not_gone network digests config full_scan now (map (λ e. e.relative_path) es) _

  run_unlocked-IsQuiet :
      (now run_id finished : ℕ) (es : List Entry) (c : Client S)
      → Current es c.synced_files
      → any
          (is_gone network digests config false now (map (λ e. e.relative_path) es))
          c.synced_files
        ≡ false
      → IsQuiet
          (length es)
          c
          (run_unlocked network digests config false now run_id finished (map later es) c)
  unfolding run_unlocked no_report
  run_unlocked-IsQuiet now run_id finished es c current gone =
      let (same, uploaded, failed, count) =
        sync_entries-unchanged network digests config false now (map later es) _ _
          (Current-later es c.synced_files current) in
      let seen : any
            (is_gone network digests config false now (map (λ e. e.relative_path) (map later es)))
            c.synced_files
          ≡ false =
        subst (λ t. any (is_gone network digests config false now t) c.synced_files ≡ false)
          (sym (seen-later es)) gone in
      (
        uploaded,
        failed,
        ap
              (λ (u : Client S). length (
                select
                  (is_gone network digests config false now
                    (map (λ e. e.relative_path) (map later es)))
                  u.synced_files))
              same
            ∙ ap length (select-none _ c.synced_files seen),
        omega (arith, count, length-later es),
        ap (λ (u : Client S). u.node) same,
        ap (λ (u : Client S). u.access_token) same,
        ap
              (λ (u : Client S).
                update_where
                  (is_gone network digests config false now
                    (map (λ e. e.relative_path) (map later es)))
                  (λ r. record r { is_synced = false }) u.synced_files)
              same
            ∙ update_where-none _ _ c.synced_files seen,
      )

  -- After a run in which no file failed, of files with different paths, a run that is not a full scan
  -- over the same files with the sizes and times that they had uploads nothing, fails nowhere, finds
  -- nothing missing and every file unchanged; it sends the node no request, and the rows of the files
  -- stay as they are. What the reads of the files' contents return does not matter.
  pub run_unlocked-again :
      (full_scan : Bool) (now run_id finished now' run_id' finished' : ℕ) (es : List Entry)
      (c c1 c2 : Client S) (r1 r2 : Report)
      → Distinct es
      → run_unlocked network digests config full_scan now run_id finished es c ≡ (r1, c1)
      → r1.failed ≡ 0
      → run_unlocked network digests config false now' run_id' finished' (map later es) c1
        ≡ (r2, c2)
      → (r2.uploaded ≡ 0)
        × (r2.failed ≡ 0)
        × (r2.missing ≡ 0)
        × (r2.unchanged ≡ length es)
        × (c2.node ≡ c1.node)
        × (c2.access_token ≡ c1.access_token)
        × (c2.synced_files ≡ c1.synced_files)
  run_unlocked-again full_scan now run_id finished now' run_id' finished' es c c1 c2 r1 r2 d h1 f
        h2 =
      let current : Current es c1.synced_files =
        subst (λ (p : Report × Client S). Current es p.1.synced_files) h1
          (run_unlocked-Current full_scan now run_id finished es c d
            (ap (λ (p : Report × Client S). p.0.failed) h1 ∙ f)) in
      let gone : any (is_gone network digests config false now' (map (λ e. e.relative_path) es))
            c1.synced_files
          ≡ false =
        subst
          (λ (p : Report × Client S).
            any (is_gone network digests config false now' (map (λ e. e.relative_path) es))
              p.1.synced_files
            ≡ false)
          h1 (run_unlocked-gone full_scan now now' run_id finished es c) in
      subst (IsQuiet (length es) c1) h2
        (run_unlocked-IsQuiet now' run_id' finished' es c1 current gone)
