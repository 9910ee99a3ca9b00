-- ===== src/Sync/Rows.antt =====
-- What the statements for one file do to the rows of `synced_files`: its own row, and those of other
-- files.
use personal_secure_node.Prelude.{
  Text, Bool, true, false, not, ◌&&◌, Option, none, some, List, [], ◌∷◌, ok, inl, inr, ◌≡◌, refl,
  sym, ◌∙◌, ◌==◌, text_eq, text_eq_refl, text_eq_apart, text_eq_iff, find_first, any,
  update_where-find, update_where-find_other, find_first-append, find_first-none,
  find_first-update_own, find_first_holds, arith, Bool-cases, Option-cases,
}
use personal_secure_node.Sync.{Stat, SyncedFile}
use personal_secure_node.Sync.Run.{
  row_of, is_fresh, has_content, upsert_synced, write_row, set_stat,
}

-- The path has a synced row with the size and the time of `stat`.
abbrev pub IsRecorded : Text → Stat → List SyncedFile → Type 0
IsRecorded path stat rows =
    (r : SyncedFile) × (row_of path rows ≡ some r)
    × (r.is_synced ≡ true)
    × (r.size ≡ stat.size)
    × (r.mtime_ns ≡ stat.mtime_ns)

pub IsRecorded-is_fresh :
    (path : Text) (stat : Stat) (rows : List SyncedFile)
    → IsRecorded path stat rows
    → is_fresh false stat (row_of path rows) ≡ true
unfolding is_fresh
IsRecorded-is_fresh path stat rows (r, found, synced, size, time) =
    rw found (ground (arith, synced, size, time))

pub is_fresh-IsRecorded :
    (full_scan : Bool) (path : Text) (stat : Stat) (rows : List SyncedFile)
    → is_fresh full_scan stat (row_of path rows) ≡ true
    → IsRecorded path stat rows
unfolding is_fresh
is_fresh-IsRecorded full_scan path stat rows h = elim (Option-cases (row_of path rows)) [
  | inl e ↦ let bad : false ≡ true = rw (e, is_fresh) at h in cc
  | inr (r, e) ↦
      let passed : (not full_scan
            && r.is_synced
            && r.size == stat.size
            && r.mtime_ns == stat.mtime_ns)
          ≡ true =
        rw (e, is_fresh) at h in
      (r, e, ground (arith, passed), ground (arith, passed), ground (arith, passed))
]

pub upsert_synced_lem :
    (r : SyncedFile) (rows rows' : List SyncedFile)
    → upsert_synced r rows ≡ ok rows'
    → rows' ≡ write_row r rows
unfolding upsert_synced
upsert_synced_lem r rows rows' h = ground arith

pub write_row-own :
    (r : SyncedFile) (rows : List SyncedFile) → row_of r.relative_path (write_row r rows) ≡ some r
unfolding write_row row_of find_first
write_row-own r rows = elim (Bool-cases (any (λ u. text_eq r.relative_path u.relative_path) rows)) [
  | inl e ↦ rw e (find_first-update_own _ r rows (text_eq_refl r.relative_path) e)
  | inr e ↦
      rw e (rw (find_first-append, find_first-none _ rows e, text_eq_refl r.relative_path) refl)
]

pub write_row-other :
    (r : SyncedFile) (rows : List SyncedFile) (other : Text)
    → text_eq other r.relative_path ≡ false
    → row_of other (write_row r rows) ≡ row_of other rows
unfolding write_row row_of find_first
write_row-other r rows other differs =
    elim (Bool-cases (any (λ u. text_eq r.relative_path u.relative_path) rows)) [
      | inl e ↦ rw e (
          update_where-find_other _ _ _ rows (λ x k. differs)
            (λ x k. text_eq_apart r.relative_path other x.relative_path differs k))
      | inr e ↦ rw e (rw find_first-append (kept (find_first _ rows)))
    ]
  where
    kept :
        (found : Option SyncedFile)
        → (elim found [
          | none ↦ find_first (λ a. text_eq other a.relative_path) (r ∷ [])
          | some x ↦ some x
        ])
          ≡ found
    kept none = rw differs refl
    kept (some x) = refl

pub set_stat-own :
    (path : Text) (stat : Stat) (rows : List SyncedFile) (content_hash : Text)
    → has_content content_hash (row_of path rows) ≡ true
    → IsRecorded path stat (set_stat path stat rows)
unfolding set_stat row_of has_content
set_stat-own path stat rows content_hash h = elim (Option-cases (row_of path rows)) [
  | inl e ↦ let bad : false ≡ true = rw (e, has_content) at h in cc
  | inr (u, e) ↦
      let passed : (text_eq u.content_hash content_hash && u.is_synced) ≡ true =
        rw (e, has_content) at h in
      (
        record u { size = stat.size; mtime_ns = stat.mtime_ns },
        update_where-find _ _ _ rows (λ x. refl) ∙ rw e (rw (find_first_holds _ rows u e) refl),
        ground (arith, passed),
        refl,
        refl,
      )
]

pub set_stat-other :
    (path : Text) (stat : Stat) (rows : List SyncedFile) (other : Text)
    → text_eq other path ≡ false
    → row_of other (set_stat path stat rows) ≡ row_of other rows
unfolding set_stat row_of
set_stat-other path stat rows other differs =
    update_where-find_other _ _ _ rows
      (λ x k. rw (sym ((text_eq_iff path x.relative_path).0 k)) differs)
      (λ x k. text_eq_apart path other x.relative_path differs k)
