-- ===== src/Vault/Counted/Removal.antt =====
-- `purge_file` and the references of the purged versions.
use personal_secure_node.Prelude.{
  ℕ, ◌+◌, ◌≤◌, ◌≡◌, refl, sym, ap, ◌∙◌, Text, not, some, List, [], ◌∷◌, ok, arith, ◌==◌,
  if◌then◌else◌, select, uses, uses-select,
}
use personal_secure_node.Paths.{normalize_virtual_path}
use personal_secure_node.Schema.{Db, File, VersionChunk}
use personal_secure_node.Schema.References.{
  IsCounted, ref_count_of, uses_of, keys_of, one_if, drop_references_lem, ref_count_of-same,
}
use personal_secure_node.Vault.Files.{last_deleted}
use personal_secure_node.Vault.Purge.{
  is_version_of, count_one, group_uses, drop_all_references, delete_rows, purge_rows,
}

-- what a list of groups counts for a chunk
abbrev total_of : ℕ → List (ℕ × ℕ) → ℕ
total_of k [] = 0
total_of k ((j, n) ∷ t) = (if k == j then n else 0) + total_of k t

total_of-count_one :
    (k j : ℕ) (t : List (ℕ × ℕ)) → total_of k (count_one j t) ≡ one_if (k == j) + total_of k t
unfolding count_one
total_of-count_one k j [] = refl
total_of-count_one k j ((i, n) ∷ t) = ground (arith, total_of-count_one k j t)

total_of-group_uses : (k : ℕ) (rs : List VersionChunk) → total_of k (group_uses rs) ≡ uses_of k rs
unfolding group_uses uses
total_of-group_uses k [] = refl
total_of-group_uses k (r ∷ rs) =
    ground (arith, total_of-count_one k r.chunk_id (group_uses rs), total_of-group_uses k rs)

-- Dropping groups of references that are all counted succeeds, and takes each off its count.
drop_all_references_lem :
    (counts : List (ℕ × ℕ)) (db : Db)
    → ((k : ℕ) → total_of k counts ≤ ref_count_of k db)
    → (db1 : Db) × (drop_all_references counts db ≡ ok db1)
      × ((k : ℕ) → total_of k counts + ref_count_of k db1 ≡ ref_count_of k db)
      × ((k : ℕ) → keys_of k db1.chunks ≡ keys_of k db.chunks)
      × (db1 ≡ record db { chunks = db1.chunks })
unfolding drop_all_references
drop_all_references_lem [] db fits = (db, refl, (λ k. omega arith), (λ k. refl), refl)
drop_all_references_lem ((id, n) ∷ counts) db fits =
    let (db1, e1, refs1, keys1, form1) = drop_references_lem id n db (ground (arith, fits id)) in
    let (db2, e2, refs2, keys2, form2) =
      drop_all_references_lem counts db1 (λ k. ground (arith, fits k, refs1 k)) in
    (
      db2,
      rw e1 e2,
      (λ k. ground (arith, refs1 k, refs2 k)),
      (λ k. keys2 k ∙ keys1 k),
      form2 ∙ ap (λ (d : Db). record d { chunks = db2.chunks }) form1,
    )

abbrev pub rows_of : ℕ → Db → List VersionChunk
rows_of file_id db = select (λ r. is_version_of file_id db.versions r.version_id) db.version_chunks

abbrev pub other_rows : ℕ → Db → List VersionChunk
other_rows file_id db =
    select (λ r. not (is_version_of file_id db.versions r.version_id)) db.version_chunks

module _ (file_id : ℕ) (db db1 : Db) (form : db1 ≡ record db { chunks = db1.chunks }) where
  purged_rows : (delete_rows file_id db1).version_chunks ≡ other_rows file_id db
  purged_rows =
      ap (λ (d : Db). (delete_rows file_id d).version_chunks) form ∙ (unfold delete_rows in refl)

  purged_files : (delete_rows file_id db1).files ≡ select (λ f. not (file_id == f.id)) db.files
  purged_files = ap (λ (d : Db). (delete_rows file_id d).files) form ∙ (unfold delete_rows in refl)

  purged_versions :
      (delete_rows file_id db1).versions ≡ select (λ v. not (file_id == v.file_id)) db.versions
  purged_versions =
      ap (λ (d : Db). (delete_rows file_id d).versions) form ∙ (unfold delete_rows in refl)

  purged-IsCounted :
      IsCounted db
      → ((k : ℕ)
          → total_of k (group_uses (rows_of file_id db)) + ref_count_of k db1 ≡ ref_count_of k db)
      → ((k : ℕ) → keys_of k db1.chunks ≡ keys_of k db.chunks)
      → IsCounted (delete_rows file_id db1)
  purged-IsCounted c refs keys = record {
    keyed = λ k. unfold delete_rows in rw keys (c.keyed k);
    counted = λ k.
        ref_count_of-same k db1 (delete_rows file_id db1) (unfold delete_rows in refl)
        ∙ omega (arith, refs k, total_of-group_uses k (rows_of file_id db), c.counted k, split k)
        ∙ ap (uses_of k) (sym purged_rows);
  }
    where
      split :
          (k : ℕ)
          → uses_of k db.version_chunks
            ≡ uses_of k (rows_of file_id db) + uses_of k (other_rows file_id db)
      split k =
          uses-select (λ r. r.chunk_id) k (λ r. is_version_of file_id db.versions r.version_id)
            db.version_chunks

groups_fit :
    (file_id : ℕ) (db : Db)
    → IsCounted db
    → (k : ℕ) → total_of k (group_uses (rows_of file_id db)) ≤ ref_count_of k db
groups_fit file_id db c k = omega (
  arith,
  total_of-group_uses k (rows_of file_id db),
  c.counted k,
  uses-select (λ r. r.chunk_id) k (λ r. is_version_of file_id db.versions r.version_id)
      db.version_chunks,
)

-- In a database with exact counts `purge_file` violates no constraint on a path that has a deleted
-- file: of `files`, `versions` and `version_chunks` it deletes the rows of that file and no other,
-- and the counts stay exact.
pub purge_rows_lem :
    (raw path : Text) (row : File) (db : Db)
    → IsCounted db
    → normalize_virtual_path raw ≡ ok path
    → last_deleted path db ≡ some row
    → (db1 : Db) × (purge_rows raw db ≡ ok (path, db1))
      × IsCounted db1
      × (db1.version_chunks ≡ other_rows row.id db)
      × (db1.files ≡ select (λ f. not (row.id == f.id)) db.files)
      × (db1.versions ≡ select (λ v. not (row.id == v.file_id)) db.versions)
unfolding purge_rows
purge_rows_lem raw path row db c accepted found =
    let (db1, e1, refs1, keys1, form1) =
      drop_all_references_lem (group_uses (rows_of row.id db)) db (groups_fit row.id db c) in
    (
      delete_rows row.id db1,
      rw (accepted, found, e1),
      purged-IsCounted row.id db db1 form1 c refs1 keys1,
      purged_rows row.id db db1 form1,
      purged_files row.id db db1 form1,
      purged_versions row.id db db1 form1,
    )
