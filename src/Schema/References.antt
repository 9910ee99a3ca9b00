-- ===== src/Schema/References.antt =====
-- The reference count of a chunk, and what each statement does to it.
use personal_secure_node.Prelude.{
  ℕ, ◌+◌, ◌-◌, ◌≤◌, ◌≡◌, refl, sym, ap, ◌∙◌, Bool, Option, none, some, List, [], ◌∷◌, ◌++◌, ok,
  arith, ◌==◌, if◌then◌else◌, ==_iff, find_first_holds, ◌≢◌, find_first, uses, uses-append,
  uses-update_where, uses-find_first, update_where, update_where-find, Option-cases, inl, inr,
}
use mathlib.Core.Option
use personal_secure_node.Schema.{Db, Chunk, VersionChunk}
use personal_secure_node.Schema.Statements.{
  chunk_by_id, insert_chunk, add_reference, drop_references, insert_version_chunk,
}

abbrev pub count_of : Option Chunk → ℕ
count_of none = 0
count_of (some c) = c.ref_count

-- the count that the table of chunks has for a chunk, 0 if there is no row
abbrev pub ref_count_of : ℕ → Db → ℕ
ref_count_of id db = count_of (chunk_by_id id db)

-- how many rows of `version_chunks` name a chunk
abbrev pub uses_of : ℕ → List VersionChunk → ℕ
uses_of id rs = uses (λ r. r.chunk_id) id rs

abbrev pub one_if : Bool → ℕ
one_if b = if b then 1 else 0

-- how many rows the table of chunks has for an identifier
abbrev pub keys_of : ℕ → List Chunk → ℕ
keys_of id cs = uses (λ c. c.id) id cs

-- Every chunk's count is the number of its uses by versions, and its row is the only one.
pub record IsCounted (db : Db) : Type 0 where
  pub counted : (id : ℕ) → ref_count_of id db ≡ uses_of id db.version_chunks
  pub keyed : (id : ℕ) → keys_of id db.chunks ≤ 1

find_first-append :
    (id : ℕ) (xs : List Chunk) (c : Chunk)
    → find_first (λ x. id == x.id) (xs ++ c ∷ []) ≡ (elim (find_first (λ x. id == x.id) xs) [
      | none ↦ if id == c.id then some c else none
      | some y ↦ some y
    ])
unfolding find_first
find_first-append id [] c = refl
find_first-append id (x ∷ xs) c = ground (arith, find_first-append id xs c)

pub ref_count_of-insert_chunk :
    (k id plain stored now : ℕ) (db : Db)
    → chunk_by_id id db ≡ none
    → ref_count_of k (insert_chunk id plain stored now db) ≡ one_if (k == id) + ref_count_of k db
unfolding chunk_by_id insert_chunk
ref_count_of-insert_chunk k id plain stored now db h = ground (
  arith,
  h,
  find_first-append k db.chunks (record {
    id = id;
    ref_count = 1;
    plain_size = plain;
    stored_size = stored;
    created_at = now;
  }),
)

pub keys_of-insert_chunk :
    (k id plain stored now : ℕ) (db : Db)
    → chunk_by_id id db ≡ none
    → keys_of k db.chunks ≤ 1
    → keys_of k (insert_chunk id plain stored now db).chunks ≤ 1
unfolding chunk_by_id insert_chunk uses
keys_of-insert_chunk k id plain stored now db h fits = ground (
  arith,
  h,
  uses-find_first (λ c. c.id) id db.chunks,
  uses-append (λ c. c.id) k db.chunks
      (record { id = id; ref_count = 1; plain_size = plain; stored_size = stored; created_at = now }
        ∷ []),
)

pub keys_of-add_reference :
    (k id : ℕ) (db : Db) → keys_of k (add_reference id db).chunks ≡ keys_of k db.chunks
unfolding add_reference
keys_of-add_reference k id db =
    uses-update_where (λ c. c.id) k (λ c. id == c.id)
      (λ c. record c { ref_count = c.ref_count + 1 }) db.chunks (λ x. refl)

pub chunk_by_id-add_reference :
    (k id : ℕ) (db : Db)
    → chunk_by_id k (add_reference id db)
      ≡ Option.map
          (λ c. if id == c.id then record c { ref_count = c.ref_count + 1 } else c)
          (chunk_by_id k db)
unfolding chunk_by_id add_reference
chunk_by_id-add_reference k id db =
    update_where-find (λ c. k == c.id) (λ c. id == c.id)
      (λ c. record c { ref_count = c.ref_count + 1 }) db.chunks (λ x. refl)

pub find_chunk_id : (k : ℕ) (db : Db) (c : Chunk) → chunk_by_id k db ≡ some c → k ≡ c.id
unfolding chunk_by_id
find_chunk_id k db c h = (==_iff k c.id).0 (find_first_holds (λ x. k == x.id) db.chunks c h)

found_ne :
    (k id : ℕ) (db : Db) (row : Chunk)
    → chunk_by_id k db ≡ none
    → chunk_by_id id db ≡ some row
    → k ≢ id
found_ne k id db row a b e = cc

pub ref_count_of-add_reference :
    (k id : ℕ) (db : Db) (row : Chunk)
    → chunk_by_id id db ≡ some row
    → ref_count_of k (add_reference id db) ≡ one_if (k == id) + ref_count_of k db
ref_count_of-add_reference k id db row h = elim (Option-cases (chunk_by_id k db)) [
  | inl e ↦ rw (chunk_by_id-add_reference, e) (ground (arith, found_ne k id db row e h))
  | inr (c, e) ↦ rw (chunk_by_id-add_reference, e) (ground (arith, find_chunk_id k db c e))
]

-- what `drop_references` leaves if it is allowed
dropped : ℕ → ℕ → Db → Db
dropped id n db = record db {
  chunks = update_where (λ c. id == c.id) (λ c. record c { ref_count = c.ref_count - n }) db.chunks;
}

chunk_by_id-dropped :
    (k id n : ℕ) (db : Db)
    → chunk_by_id k (dropped id n db)
      ≡ Option.map
          (λ c. if id == c.id then record c { ref_count = c.ref_count - n } else c)
          (chunk_by_id k db)
unfolding chunk_by_id dropped
chunk_by_id-dropped k id n db =
    update_where-find (λ c. k == c.id) (λ c. id == c.id)
      (λ c. record c { ref_count = c.ref_count - n }) db.chunks (λ x. refl)

keys_of-dropped : (k id n : ℕ) (db : Db) → keys_of k (dropped id n db).chunks ≡ keys_of k db.chunks
unfolding dropped
keys_of-dropped k id n db =
    uses-update_where (λ c. c.id) k (λ c. id == c.id)
      (λ c. record c { ref_count = c.ref_count - n }) db.chunks (λ x. refl)

ref_count_of-dropped :
    (k id n : ℕ) (db : Db) (row : Chunk)
    → chunk_by_id id db ≡ some row
    → n ≤ row.ref_count
    → (if k == id then n else 0) + ref_count_of k (dropped id n db) ≡ ref_count_of k db
ref_count_of-dropped k id n db row h fits = elim (Option-cases (chunk_by_id k db)) [
  | inl e ↦ rw (chunk_by_id-dropped, e) (ground (arith, found_ne k id db row e h))
  | inr (c, e) ↦ rw (chunk_by_id-dropped, e) (ground (arith, find_chunk_id k db c e, same_row c e))
]
  where
    same_row : (c : Chunk) → chunk_by_id k db ≡ some c → k ≡ id → c.ref_count ≡ row.ref_count
    same_row c a b = ground arith

-- Dropping `n` references of a chunk that has as many succeeds, takes `n` off its count and leaves
-- the other counts and the uses alone.
pub drop_references_lem :
    (id n : ℕ) (db : Db)
    → n ≤ ref_count_of id db
    → (db1 : Db) × (drop_references id n db ≡ ok db1)
      × ((k : ℕ) → (if k == id then n else 0) + ref_count_of k db1 ≡ ref_count_of k db)
      × ((k : ℕ) → keys_of k db1.chunks ≡ keys_of k db.chunks)
      × (db1 ≡ record db { chunks = db1.chunks })
unfolding drop_references
drop_references_lem id n db fits = elim (Option-cases (chunk_by_id id db)) [
  | inl e ↦ (db, rw (e, drop_references), (λ k. ground (arith, e)), (λ k. refl), refl)
  | inr (row, e) ↦ (
    dropped id n db,
    (unfold dropped in ground (arith, e)),
    (λ k. ref_count_of-dropped k id n db row e (ground (arith, e))),
    (λ k. keys_of-dropped k id n db),
    (unfold dropped in refl),
  )
]

pub ref_count_of-same :
    (k : ℕ) (db db' : Db) → db'.chunks ≡ db.chunks → ref_count_of k db' ≡ ref_count_of k db
unfolding chunk_by_id
ref_count_of-same k db db' e = rw e

-- A statement that leaves both tables alone keeps the counts exact.
pub IsCounted-same :
    (db db' : Db)
    → IsCounted db
    → db'.chunks ≡ db.chunks
    → db'.version_chunks ≡ db.version_chunks
    → IsCounted db'
IsCounted-same db db' c e f = record {
  counted = λ k. ref_count_of-same k db db' e ∙ c.counted k ∙ ap (uses_of k) (sym f);
  keyed = λ k. rw e (c.keyed k);
}

-- A new row of `version_chunks` is one more use of its chunk.
pub uses_of-insert_version_chunk :
    (k : ℕ) (r : VersionChunk) (db db1 : Db)
    → insert_version_chunk r db ≡ ok db1
    → (uses_of k db1.version_chunks ≡ one_if (k == r.chunk_id) + uses_of k db.version_chunks)
      × (ref_count_of k db1 ≡ ref_count_of k db)
      × (db1 ≡ record db { version_chunks = db.version_chunks ++ r ∷ [] })
unfolding insert_version_chunk
uses_of-insert_version_chunk k r db db1 h = (
  (unfold uses in ground (arith, uses-append (λ q. q.chunk_id) k db.version_chunks (r ∷ []))),
  ref_count_of-same k db db1 (ground arith),
  ground arith,
)
