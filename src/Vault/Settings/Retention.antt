-- ===== src/Vault/Settings/Retention.antt =====
-- What a run of the trash retention purges.
use personal_secure_node.Prelude.{
  ℕ, ◌+◌, ◌≤◌, ◌<◌, subst, ◌≡◌, ◌≢◌, ap, ◌∙◌, true, not, some, [], ◌∷◌, ok, arith, leb, ◌==◌, All,
  select, select_holds,
}
use personal_secure_node.Paths.{normalize_virtual_path}
use personal_secure_node.Schema.{Db, File}
use personal_secure_node.Schema.References.{IsCounted}
use personal_secure_node.Vault.{Vault}
use personal_secure_node.Vault.Files.{last_deleted, time_of}
use personal_secure_node.Vault.Purge.{purge_file}
use personal_secure_node.Vault.Counted.Removal.{purge_rows_lem}
use personal_secure_node.Vault.Counted.Garbage.{collect_garbage_lem}
use personal_secure_node.Vault.Settings.{cutoff, candidates, purge_candidates, run_trash_retention}

-- Purging a path that has a deleted file succeeds in a vault with exact counts. Only the file that
-- was deleted last goes.
pub purge_file_lem :
    (v : Vault) (file : File) (row : File)
    → IsCounted v.db
    → normalize_virtual_path file.virtual_path ≡ ok file.virtual_path
    → last_deleted file.virtual_path v.db ≡ some row
    → (v1 : Vault) × (counts : ℕ × ℕ) × (purge_file file.virtual_path v
        ≡ (ok (file.virtual_path, counts), v1))
      × IsCounted v1.db
      × (v1.db.files ≡ select (λ f. not (row.id == f.id)) v.db.files)
unfolding purge_file
purge_file_lem v file row c accepted found =
    let (db1, e1, c1, _, files1, _) =
      purge_rows_lem file.virtual_path file.virtual_path row v.db c accepted found in
    let (counts, v1, e2, c2, _, _, form) = collect_garbage_lem (record v { db = db1 }) c1 in
    (v1, counts, ground (arith, e1, e2), c2, ap (λ (d : Db). d.files) form ∙ files1)

leb→le : (a b : ℕ) → leb a b ≡ true → a ≤ b
leb→le a b h = ground arith

candidates_hold :
    (limit : ℕ) (db : Db)
    → All (λ (f : File). leb (time_of f.deleted_at) limit ≡ true) (candidates limit db)
unfolding candidates
candidates_hold limit db = select_holds _ _

-- A run with one candidate, in a vault with exact counts: where another file of the same path was
-- deleted later, after the cutoff, the run reports the candidate's path and purges that other file,
-- which is no candidate.
pub retention_purges_recent_file :
    (now days : ℕ) (v : Vault) (old recent : File)
    → IsCounted v.db
    → v.db.trash_retention_days ≡ some days
    → candidates (cutoff now days) v.db ≡ old ∷ []
    → normalize_virtual_path old.virtual_path ≡ ok old.virtual_path
    → last_deleted old.virtual_path v.db ≡ some recent
    → cutoff now days < time_of recent.deleted_at
    → (v1 : Vault) × (bytes : ℕ) × (run_trash_retention now true v
        ≡ (ok (old.virtual_path ∷ [], bytes), v1))
      × (v1.db.files ≡ select (λ f. not (recent.id == f.id)) v.db.files)
      × (recent ≢ old)
unfolding run_trash_retention purge_candidates
retention_purges_recent_file now days v old recent c policy found accepted last late =
    let (v1, counts, e, c1, files1) = purge_file_lem v old recent c accepted last in
    (
      v1,
      counts.1 + 0,
      ground (arith, e, policy, found),
      files1,
      λ same. absurd (omega (arith, ap (λ (f : File). time_of f.deleted_at) same, in_time)),
    )
  where
    in_time : time_of old.deleted_at ≤ cutoff now days
    in_time =
        leb→le _ _
          (subst (All (λ (f : File). leb (time_of f.deleted_at) (cutoff now days) ≡ true)) found
            (candidates_hold (cutoff now days) v.db)).0
