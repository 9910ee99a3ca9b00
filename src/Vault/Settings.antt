-- ===== src/Vault/Settings.antt =====
-- Settings and reports: the quota, the trash retention and its run, and `status`.
pub mod Retention
use personal_secure_node.Prelude.{
  ℕ, ◌+◌, ◌-◌, ◌*◌, Text, ℤ, to_ℕ, int_ltb, Bool, true, false, not, ◌&&◌, ◌||◌, Option, none, some,
  List, [], ◌∷◌, map, Result, ok, err, raise_if, or_raise, ◌>>=◌, ◌>>◌, value_error,
  integrity_error, leb, ◌==◌, if◌then◌else◌, select, length,
}
use personal_secure_node.Cipher.{Primitives}
use personal_secure_node.Blobs.{Store, get, disk_usage}
use personal_secure_node.Schema.{Db, File, Version, Chunk}
use personal_secure_node.Schema.Statements.{is_null}
use personal_secure_node.Vault.{Vault}
use personal_secure_node.Vault.Files.{Listing, list_deleted_files, time_of}
use personal_secure_node.Vault.Purge.{purge_file}
use personal_secure_node.Vault.Shares.{seconds}

unfoldable pub set_quota : Option ℤ → Db → Result Db
set_quota none db = ok (record db { quota_bytes = none })
set_quota (some quota) db = do
  raise_if (int_ltb quota 0) value_error
  ok (record db { quota_bytes = some (to_ℕ quota) })

unfoldable pub set_trash_retention : Option ℤ → Db → Result Db
set_trash_retention none db = ok (record db { trash_retention_days = none })
set_trash_retention (some days) db = do
  raise_if (int_ltb days 1 || not (int_ltb days 3651)) value_error
  ok (record db { trash_retention_days = some (to_ℕ days) })

-- `now - timedelta(days=days)`
unfoldable pub cutoff : ℕ → ℕ → ℕ
cutoff now days = now - seconds (days * 24 * 60 * 60)

-- the deleted files that the retention is over for
unfoldable pub candidates : ℕ → Db → List File
candidates limit db =
    select (λ f. leb (time_of f.deleted_at) limit) (map (λ l. l.file) (list_deleted_files db))

-- the loop of purges by path; the result is the number of bytes reclaimed
unfoldable pub purge_candidates : List File → Vault → Result ℕ × Vault
purge_candidates [] v = (ok 0, v)
purge_candidates (f ∷ fs) v =
    let (r, v1) = purge_file f.virtual_path v in
    let (rest, v2) = purge_candidates fs v1 in
    elim r [
      | err e ↦ (err e, v1)
      | ok (path, (n, bytes)) ↦ ((do others ← rest; ok (bytes + others)), v2)
    ]

-- The result is the paths of the candidates, and the bytes reclaimed.
unfoldable pub run_trash_retention : ℕ → Bool → Vault → Result (List Text × ℕ) × Vault
run_trash_retention now apply v = elim v.db.trash_retention_days [
  | none ↦ (err value_error, v)
  | some days ↦
      let found = candidates (cutoff now days) v.db in
      let paths = map (λ f. f.virtual_path) found in
      let (r, v1) = purge_candidates found v in
      if apply then ((do bytes ← r; ok (paths, bytes)), v1) else (ok (paths, 0), v)
]

sum_sizes {ℓ} : {A : Type ℓ} → (A → ℕ) → List A → ℕ
sum_sizes size [] = 0
sum_sizes size (x ∷ xs) = size x + sum_sizes size xs

pub record Status : Type 0 where
  pub live_files : ℕ
  pub deleted_files : ℕ
  pub versions : ℕ
  pub chunks : ℕ
  pub logical_bytes : ℕ
  pub stored_bytes : ℕ
  pub physical_bytes : ℕ
  pub quota_bytes : Option ℕ

unfoldable pub status : Vault → Status
unfolding sum_sizes
status v = record {
  live_files = length (select (λ f. is_null f.deleted_at) v.db.files);
  deleted_files = length (select (λ f. not (is_null f.deleted_at)) v.db.files);
  versions = length v.db.versions;
  chunks = length v.db.chunks;
  logical_bytes = sum_sizes (λ r. r.size) v.db.versions;
  stored_bytes = sum_sizes (λ r. r.stored_size) v.db.chunks;
  physical_bytes = disk_usage v.blobs;
  quota_bytes = v.db.quota_bytes;
}

module _ (p : Primitives) where
  -- the loop of `verify`; the result is the number of chunks and of bytes
  unfoldable pub verify_chunks : List Chunk → Store → Result (ℕ × ℕ)
  verify_chunks [] s = ok (0, 0)
  verify_chunks (c ∷ cs) s = do
    plaintext ← get p c.id s
    raise_if (not (length plaintext == c.plain_size)) integrity_error
    (n, bytes) ← verify_chunks cs s
    ok (n + 1, length plaintext + bytes)

  unfoldable pub verify : Vault → Result (ℕ × ℕ)
  unfolding verify_chunks
  verify v = verify_chunks v.db.chunks v.blobs
