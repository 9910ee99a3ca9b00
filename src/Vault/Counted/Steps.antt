-- ===== src/Vault/Counted/Steps.antt =====
-- Recording and restoring versions.
use personal_secure_node.Prelude.{
  ℕ, ◌+◌, ◌≤◌, ◌≡◌, refl, Option, none, some, List, [], ◌∷◌, ok, arith, >>=-eq-ok, Option-cases,
  inl, inr, ◌==◌, Text, subst, or_raise, file_not_found_in_vault, any-find_first, ok-injective,
}
use personal_secure_node.Paths.{normalize_virtual_path}
use personal_secure_node.Schema.{Db, File, Version, Chunk, VersionChunk}
use personal_secure_node.Schema.Statements.{
  chunk_by_id, live_file, insert_file, insert_version, insert_version_chunk, insert_chunk,
  add_reference, set_current_version, insert_event,
}
use personal_secure_node.Schema.References.{
  IsCounted, IsCounted-same, ref_count_of, one_if, ref_count_of-insert_chunk,
  ref_count_of-add_reference, uses_of-insert_version_chunk, keys_of, keys_of-insert_chunk,
  keys_of-add_reference,
}
use personal_secure_node.Vault.Directories.{ensure_directories}
use personal_secure_node.Vault.Versions.{
  copy_chunks, live_version, chunks_of_version, restore_version,
}
use personal_secure_node.Vault.Import.{
  Piece, NewVersion, ImportResult, count_reference, reference_chunks, file_for_version,
  same_content, insert_new_version, record_version,
}

-- One more reference is counted.
ref_count_of-count_reference :
    (now : ℕ) (piece : Piece) (found : Option Chunk) (db db1 : Db)
    → chunk_by_id piece.chunk_id db ≡ found
    → count_reference now piece found db ≡ ok db1
    → (k : ℕ)
    → (ref_count_of k db1 ≡ one_if (k == piece.chunk_id) + ref_count_of k db)
      × (db1.version_chunks ≡ db.version_chunks)
      × (keys_of k db.chunks ≤ 1 → keys_of k db1.chunks ≤ 1)
unfolding count_reference
ref_count_of-count_reference now piece none db db1 e h k = ground (
  arith,
  ref_count_of-insert_chunk k piece.chunk_id piece.plain_size piece.stored_size now db e,
  unchanged,
  keys_of-insert_chunk k piece.chunk_id piece.plain_size piece.stored_size now db e,
)
  where
    unchanged :
        (insert_chunk piece.chunk_id piece.plain_size piece.stored_size now db).version_chunks
        ≡ db.version_chunks
    unchanged = unfold insert_chunk in refl
ref_count_of-count_reference now piece (some row) db db1 e h k = ground (
  arith,
  ref_count_of-add_reference k piece.chunk_id db row e,
  unchanged,
  keys_of-add_reference k piece.chunk_id db,
)
  where
    unchanged : (add_reference piece.chunk_id db).version_chunks ≡ db.version_chunks
    unchanged = unfold add_reference in refl

reference_one-IsCounted :
    (now : ℕ) (piece : Piece) (r : VersionChunk) (db db1 db2 : Db)
    → IsCounted db
    → r.chunk_id ≡ piece.chunk_id
    → count_reference now piece (chunk_by_id piece.chunk_id db) db ≡ ok db1
    → insert_version_chunk r db1 ≡ ok db2
    → IsCounted db2
reference_one-IsCounted now piece r db db1 db2 c same h1 h2 = record {
  counted = λ k.
      let (refs1, uses1, keys1) = ref_count_of-count_reference now piece _ db db1 refl h1 k in
      let (uses2, refs2, _) = uses_of-insert_version_chunk k r db1 db2 h2 in
      ground (arith, c.counted k);
  keyed = λ k.
      let (refs1, uses1, keys1) = ref_count_of-count_reference now piece _ db db1 refl h1 k in
      let (uses2, refs2, form) = uses_of-insert_version_chunk k r db1 db2 h2 in
      rw form (keys1 (c.keyed k));
}

pub reference_chunks-IsCounted :
    (version_id now : ℕ) (pieces : List Piece) (db db' : Db)
    → IsCounted db
    → reference_chunks version_id now pieces db ≡ ok db'
    → IsCounted db'
unfolding reference_chunks
reference_chunks-IsCounted version_id now [] db db' c h = subst IsCounted (ok-injective h) c
reference_chunks-IsCounted version_id now (piece ∷ pieces) db db' c h =
    let (db1, e1, h1) =
      >>=-eq-ok (count_reference now piece (chunk_by_id piece.chunk_id db) db) _ h in
    let (db2, e2, h2) = >>=-eq-ok (insert_version_chunk (row) db1) _ h1 in
    reference_chunks-IsCounted version_id now pieces db2 db'
      (reference_one-IsCounted now piece row db db1 db2 c refl e1 e2) h2
  where
    row : VersionChunk
    row = record {
      version_id = version_id;
      ordinal = piece.ordinal;
      chunk_id = piece.chunk_id;
      plain_size = piece.plain_size;
    }

file_for_version-IsCounted :
    (found : Option File) (fresh : ℕ) (path : Text) (now file_id : ℕ) (db db' : Db)
    → IsCounted db
    → file_for_version found fresh path now db ≡ ok (file_id, db')
    → IsCounted db'
unfolding file_for_version insert_file ensure_directories
file_for_version-IsCounted (some row) fresh path now file_id db db' c h =
    IsCounted-same db db' c (ground arith) (ground arith)
file_for_version-IsCounted none fresh path now file_id db db' c h =
    IsCounted-same db db' c (ground arith) (ground arith)

insert_version-IsCounted :
    (v : Version) (db db' : Db) → IsCounted db → insert_version v db ≡ ok db' → IsCounted db'
unfolding insert_version
insert_version-IsCounted v db db' c h = IsCounted-same db db' c (ground arith) (ground arith)

pub insert_new_version-IsCounted :
    (new : NewVersion) (pieces : List Piece) (found : Option File) (db : Db) (r : ℕ × Db)
    → IsCounted db
    → insert_new_version new pieces found db ≡ ok r
    → IsCounted r.1
unfolding insert_new_version
insert_new_version-IsCounted new pieces found db r c h =
    let ((file_id, db1), e1, h1) =
      >>=-eq-ok (file_for_version found new.fresh_file_id new.virtual_path new.now db) _ h in
    let c1 = file_for_version-IsCounted found _ _ _ file_id db db1 c e1 in
    let (db2, e2, h2) = >>=-eq-ok (insert_version (version file_id) db1) _ h1 in
    let c2 = insert_version-IsCounted (version file_id) db1 db2 c1 e2 in
    let (db3, e3, h3) = >>=-eq-ok (reference_chunks new.version_id new.now pieces db2) _ h2 in
    let c3 = reference_chunks-IsCounted new.version_id new.now pieces db2 db3 c2 e3 in
    subst (λ (q : ℕ × Db). IsCounted q.1) (ok-injective h3)
      (IsCounted-same db3 _ c3 (unfold set_current_version in refl)
        (unfold set_current_version in refl))
  where
    version : ℕ → Version
    version file_id = record {
      id = new.version_id;
      file_id = file_id;
      size = new.size;
      content_hash = new.digest;
      created_at = new.now;
    }

-- The transaction of `import_file` keeps the counts exact.
pub record_version-IsCounted :
    (new : NewVersion) (db : Db) (r : ImportResult × Db)
    → IsCounted db
    → record_version new db ≡ ok r
    → IsCounted r.1
unfolding record_version
record_version-IsCounted new db r c h =
    elim (Option-cases (same_content (live_file new.virtual_path db) new.size new.digest db)) [
      | inl e ↦
          let (q, e1, h1) =
            >>=-eq-ok (insert_new_version new _ (live_file new.virtual_path db) db) _
              (rw (e, record_version) at h) in
          subst (λ (p : ImportResult × Db). IsCounted p.1) (ok-injective h1)
            (IsCounted-same q.1 _ (insert_new_version-IsCounted new _ _ db q c e1)
              (unfold insert_event in refl) (unfold insert_event in refl))
      | inr (a, e) ↦
          subst (λ (p : ImportResult × Db). IsCounted p.1)
            (ok-injective (rw (e, record_version) at h)) c
    ]

-- A row of `version_chunks` is inserted only for a chunk that has a row.
chunk_exists :
    (r : VersionChunk) (db db1 : Db)
    → insert_version_chunk r db ≡ ok db1
    → (row : Chunk) × (chunk_by_id r.chunk_id db ≡ some row)
unfolding insert_version_chunk chunk_by_id
chunk_exists r db db1 h = any-find_first (λ c. r.chunk_id == c.id) db.chunks (ground arith)

copy_one-IsCounted :
    (chunk r : VersionChunk) (db db1 : Db)
    → IsCounted db
    → r.chunk_id ≡ chunk.chunk_id
    → insert_version_chunk r db ≡ ok db1
    → IsCounted (add_reference chunk.chunk_id db1)
copy_one-IsCounted chunk r db db1 c same h = record {
  counted = λ k.
      let (uses1, refs1, form) = uses_of-insert_version_chunk k r db db1 h in
      let (row, found) = chunk_exists r db db1 h in
      let found1 : chunk_by_id chunk.chunk_id db1 ≡ some row =
        rw form (unfold chunk_by_id in (rw same at found)) in
      let refs2 = ref_count_of-add_reference k chunk.chunk_id db1 row found1 in
      let kept : (add_reference chunk.chunk_id db1).version_chunks ≡ db1.version_chunks =
        unfold add_reference in refl in
      ground (arith, c.counted k);
  keyed = λ k.
      let (uses1, refs1, form) = uses_of-insert_version_chunk k r db db1 h in
      rw (keys_of-add_reference k chunk.chunk_id db1, form) (c.keyed k);
}

-- The loop of `restore_version` counts every chunk that it copies.
copy_chunks-IsCounted :
    (version_id : ℕ) (chunks : List VersionChunk) (db db' : Db)
    → IsCounted db
    → copy_chunks version_id chunks db ≡ ok db'
    → IsCounted db'
unfolding copy_chunks
copy_chunks-IsCounted version_id [] db db' c h = subst IsCounted (ok-injective h) c
copy_chunks-IsCounted version_id (chunk ∷ chunks) db db' c h =
    let (db1, e1, h1) =
      >>=-eq-ok (insert_version_chunk (record chunk { version_id = version_id }) db) _ h in
    copy_chunks-IsCounted version_id chunks (add_reference chunk.chunk_id db1) db'
      (copy_one-IsCounted chunk (record chunk { version_id = version_id }) db db1 c refl e1) h1

-- `restore_version` keeps the counts exact.
pub restore_version-IsCounted :
    (now new_version_id : ℕ) (raw : Text) (version_id : ℕ) (db : Db) (r : ℕ × Db)
    → IsCounted db
    → restore_version now new_version_id raw version_id db ≡ ok r
    → IsCounted r.1
unfolding restore_version
restore_version-IsCounted now new_version_id raw version_id db r c h =
    let (path, e1, h1) = >>=-eq-ok (normalize_virtual_path raw) _ h in
    let (row, e2, h2) =
      >>=-eq-ok (or_raise (live_version path version_id db) file_not_found_in_vault) _ h1 in
    let (db1, e3, h3) =
      >>=-eq-ok (insert_version (record row { id = new_version_id; created_at = now }) db) _ h2 in
    let c1 = insert_version-IsCounted _ db db1 c e3 in
    let (db2, e4, h4) =
      >>=-eq-ok (copy_chunks new_version_id (chunks_of_version version_id db1) db1) _ h3 in
    let c2 = copy_chunks-IsCounted new_version_id _ db1 db2 c1 e4 in
    subst (λ (q : ℕ × Db). IsCounted q.1) (ok-injective h4)
      (IsCounted-same db2 _ c2 (unfold insert_event set_current_version in refl)
        (unfold insert_event set_current_version in refl))
