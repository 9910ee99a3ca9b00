-- ===== src/Vault/Counted/Garbage.antt =====
-- `collect_garbage`, the reference counts and the blobs.
use personal_secure_node.Prelude.{
  ℕ, ◌+◌, ◌<◌, ◌≡◌, refl, ◌∙◌, Bool, true, false, not, ◌&&◌, ◌||◌, none, some, List, [], ◌∷◌, ok,
  arith, ◌==◌, if◌then◌else◌, All, All-map, select, any, any-uses, uses-select, find_first,
  find_first-All, find_first-select_key, Option-cases, Bool-cases, inl, inr,
}
use personal_secure_node.Schema.{Db, Chunk, VersionChunk}
use personal_secure_node.Schema.Statements.{chunk_by_id}
use personal_secure_node.Schema.References.{IsCounted, ref_count_of, uses_of}
use personal_secure_node.Blobs.{exists, delete}
use personal_secure_node.Blobs.Laws.{exists-delete}
use personal_secure_node.Vault.{Vault}
use personal_secure_node.Vault.Purge.{collect_chunk, collect_rows, collect_garbage}

-- what one round leaves
abbrev collected : Chunk → Vault → Vault
collected row v = record {
  blobs = (delete row.id v.blobs).1;
  db = record v.db { chunks = select (λ c. not (row.id == c.id && c.ref_count == 0)) v.db.chunks };
}

collect_chunk_lem :
    (row : Chunk) (v : Vault)
    → uses_of row.id v.db.version_chunks ≡ 0
    → collect_chunk row v ≡ ok (collected row v)
unfolding collect_chunk
collect_chunk_lem row v h = rw (any-uses (λ r. r.chunk_id) row.id v.db.version_chunks h)

module _ (row : Chunk) (v : Vault) (c : IsCounted v.db) where
  chunk_by_id-collected :
      (k : ℕ)
      → chunk_by_id k (collected row v).db ≡ (elim (chunk_by_id k v.db) [
        | none ↦ none
        | some x ↦ if not (row.id == x.id && x.ref_count == 0) then some x else none
      ])
  unfolding chunk_by_id
  chunk_by_id-collected k =
      find_first-select_key (λ x. x.id) k (λ x. not (row.id == x.id && x.ref_count == 0))
        v.db.chunks (c.keyed k)

  -- A row goes only if its count is 0, so no count changes.
  ref_count_of-collected : (k : ℕ) → ref_count_of k (collected row v).db ≡ ref_count_of k v.db
  ref_count_of-collected k = elim (Option-cases (chunk_by_id k v.db)) [
    | inl e ↦ rw (chunk_by_id-collected, e)
    | inr (x, e) ↦ rw (chunk_by_id-collected, e) (ground arith)
  ]

  collected-IsCounted : IsCounted (collected row v).db
  collected-IsCounted = record {
    counted = λ k. ref_count_of-collected k ∙ c.counted k;
    keyed = λ k. omega (
      arith,
      c.keyed k,
      uses-select (λ x. x.id) k (λ x. not (row.id == x.id && x.ref_count == 0)) v.db.chunks,
    );
  }

collect_rows_step :
    (row : Chunk) (rows : List Chunk) (saved : Db) (v v1 v2 : Vault) (counts : ℕ × ℕ)
    → collect_chunk row v ≡ ok v1
    → collect_rows rows saved v1 ≡ (ok counts, v2)
    → collect_rows (row ∷ rows) saved v ≡ (ok (counts.0 + 1, counts.1 + row.stored_size), v2)
unfolding collect_rows
collect_rows_step row rows saved v v1 v2 counts h k = ground arith

not_listed :
    (k : ℕ) (rs : List VersionChunk) (rows : List Chunk)
    → All (λ (row : Chunk). uses_of row.id rs ≡ 0) rows
    → 0 < uses_of k rs
    → any (λ (x : Chunk). k == x.id) rows ≡ false
unfolding any
not_listed k rs [] h used = refl
not_listed k rs (row ∷ rows) h used = ground (arith, not_listed k rs rows h.1 used)

-- The loop deletes the blobs of its rows and no other.
collect_rows_lem :
    (rows : List Chunk) (saved : Db) (v : Vault)
    → IsCounted v.db
    → All (λ (row : Chunk). uses_of row.id v.db.version_chunks ≡ 0) rows
    → (counts : ℕ × ℕ) × (v1 : Vault) × (collect_rows rows saved v ≡ (ok counts, v1))
      × IsCounted v1.db
      × ((k : ℕ) → exists k v1.blobs ≡ (not (any (λ c. k == c.id) rows) && exists k v.blobs))
      × (v1.db ≡ record v.db { chunks = v1.db.chunks })
unfolding collect_rows any
collect_rows_lem [] saved v c h = ((0, 0), v, refl, c, (λ k. refl), refl)
collect_rows_lem (row ∷ rows) saved v c h =
    let (counts, v1, e, c1, kept, form) =
      collect_rows_lem rows saved (collected row v) (collected-IsCounted row v c) h.1 in
    (
      (counts.0 + 1, counts.1 + row.stored_size),
      v1,
      collect_rows_step row rows saved v (collected row v) v1 counts (collect_chunk_lem row v h.0)
          e,
      c1,
      (λ k. kept k ∙ one_less k),
      form,
    )
  where
    one_less :
        (k : ℕ)
        → (not (any (λ c. k == c.id) rows) && exists k (delete row.id v.blobs).1)
          ≡ (not ((k == row.id) || any (λ c. k == c.id) rows) && exists k v.blobs)
    one_less k = ground (arith, exists-delete row.id k v.blobs)

select-All :
    (p : Chunk → Bool) (P : Chunk → Type 0) (cs : List Chunk)
    → All P cs
    → All (λ c. P c × (p c ≡ true)) (select p cs)
unfolding select
select-All p P [] h = tt
select-All p P (c ∷ cs) h = elim (Bool-cases (p c)) [
  | inl e ↦ rw e ((h.0, e), select-All p P cs h.1)
  | inr e ↦ rw e (select-All p P cs h.1)
]

-- `SELECT id, stored_size FROM chunks WHERE ref_count = 0`
abbrev pub garbage : Db → List Chunk
garbage db = select (λ c. c.ref_count == 0) db.chunks

garbage_unused :
    (db : Db)
    → IsCounted db
    → All (λ (row : Chunk). uses_of row.id db.version_chunks ≡ 0) (garbage db)
garbage_unused db c =
    All-map _ _ (garbage db) unused
      (select-All _ _ db.chunks (find_first-All (λ x. x.id) db.chunks c.keyed))
  where
    unused :
        (row : Chunk)
        → (find_first (λ x. row.id == x.id) db.chunks ≡ some row) × ((row.ref_count == 0) ≡ true)
        → uses_of row.id db.version_chunks ≡ 0
    unused row (found, zero_refs) = unfold chunk_by_id in ground (arith, c.counted row.id)

-- With exact counts `collect_garbage` violates no foreign key and succeeds. It deletes the blobs of
-- the chunks whose count is 0 and of no other, and only rows of `chunks`; the counts stay exact; and
-- the blob of a chunk that some version uses is there after the call if it was there before.
pub collect_garbage_lem :
    (v : Vault)
    → IsCounted v.db
    → (counts : ℕ × ℕ) × (v1 : Vault) × (collect_garbage v ≡ (ok counts, v1))
      × IsCounted v1.db
      × ((k : ℕ)
          → exists k v1.blobs ≡ (not (any (λ c. k == c.id) (garbage v.db)) && exists k v.blobs))
      × ((k : ℕ) → 0 < uses_of k v.db.version_chunks → exists k v1.blobs ≡ exists k v.blobs)
      × (v1.db ≡ record v.db { chunks = v1.db.chunks })
unfolding collect_garbage
collect_garbage_lem v c =
    let (counts, v1, e, c1, kept, form) =
      collect_rows_lem (garbage v.db) v.db v c (garbage_unused v.db c) in
    (counts, v1, e, c1, kept, (λ k used. kept k ∙ keep k used), form)
  where
    keep :
        (k : ℕ)
        → 0 < uses_of k v.db.version_chunks
        → (not (any (λ (x : Chunk). k == x.id) (garbage v.db)) && exists k v.blobs)
          ≡ exists k v.blobs
    keep k used = rw (not_listed k v.db.version_chunks (garbage v.db) (garbage_unused v.db c) used)
