-- ===== src/Vault/Verify.antt =====
-- `verify`: every chunk is read, decrypted and measured.
use personal_secure_node.Prelude.{
  ℕ, ◌+◌, ◌≡◌, ◌↔◌, refl, Bool, not, List, [], ◌∷◌, Result, ok, raise_if, ◌>>=◌, ◌>>◌, >>=-eq-ok,
  passed, integrity_error, arith, leb, ◌==◌, ==_iff, ==_refl, length, All, sort_by, insert_by,
  Bool-cases, inl, inr,
}
use personal_secure_node.Cipher.{Bytes, Primitives}
use personal_secure_node.Blobs.{Store, get}
use personal_secure_node.Schema.{Chunk}
use personal_secure_node.Vault.{Vault}

All-insert_by :
    {A : Type 0} (P : A → Type 0) (le : A → A → Bool) (x : A) (xs : List A)
    → All P (insert_by le x xs) ↔ (P x × All P xs)
unfolding insert_by
All-insert_by P le x [] = (λ h. h, λ h. h)
All-insert_by P le x (y ∷ ys) = elim (Bool-cases (le x y)) [
  | inl e ↦ rw e (λ h. h, λ h. h)
  | inr e ↦
      let (f, g) = All-insert_by P le x ys in
      rw e ((λ h. ((f h.1).0, (h.0, (f h.1).1))), λ h. (h.1.0, g (h.0, h.1.1)))
]

All-sort_by :
    {A : Type 0} (P : A → Type 0) (le : A → A → Bool) (xs : List A)
    → All P (sort_by le xs) ↔ All P xs
unfolding sort_by
All-sort_by P le [] = (λ h. h, λ h. h)
All-sort_by P le (x ∷ xs) =
    let (f, g) = All-sort_by P le xs in
    let (i, j) = All-insert_by P le x (sort_by le xs) in
    ((λ h. ((i h).0, f (i h).1)), λ h. j (h.0, g h.1))

module _ (p : Primitives) where
  -- the loop; the result is the number of bytes checked
  unfoldable pub verify_rows : List Chunk → Store → Result ℕ
  verify_rows [] s = ok 0
  verify_rows (row ∷ rows) s = do
    plaintext ← get p row.id s
    raise_if (not (length plaintext == row.plain_size)) integrity_error
    checked ← verify_rows rows s
    ok (length plaintext + checked)

  -- The result is the number of chunks and of bytes checked.
  unfoldable pub verify : Vault → Result (ℕ × ℕ)
  verify v = do
    checked ← verify_rows (sort_by (λ a b. leb a.id b.id) v.db.chunks) v.blobs
    ok (length v.db.chunks, checked)

  -- the chunk's blob is there and decrypts to as many bytes as its row says
  abbrev pub IsReadable : Store → Chunk → Type 0
  IsReadable s row = (t : Bytes) × (get p row.id s ≡ ok t) × (length t ≡ row.plain_size)

  verify_rows-IsReadable :
      (rows : List Chunk) (s : Store) (n : ℕ) → verify_rows rows s ≡ ok n → All (IsReadable s) rows
  unfolding verify_rows
  verify_rows-IsReadable [] s n h = tt
  verify_rows-IsReadable (row ∷ rows) s n h =
      let (t, e, h1) = >>=-eq-ok (get p row.id s) _ h in
      elim (Bool-cases (length t == row.plain_size)) [
        | inr wrong ↦ absurd (ground (arith, h1, wrong))
        | inl right ↦
            let h2 = passed (not (length t == row.plain_size)) integrity_error _ h1 in
            let (m, e2, h3) = >>=-eq-ok (verify_rows rows s) _ h2 in
            ((t, e, (==_iff (length t) row.plain_size).0 right), verify_rows-IsReadable rows s m e2)
      ]

  verify_rows_succeeds :
      (rows : List Chunk) (s : Store)
      → All (IsReadable s) rows
      → (n : ℕ) × (verify_rows rows s ≡ ok n)
  unfolding verify_rows
  verify_rows_succeeds [] s h = (0, refl)
  verify_rows_succeeds (row ∷ rows) s ((t, e, size), h) =
      let (n, e1) = verify_rows_succeeds rows s h in
      (length t + n, rw (e, size, ==_refl row.plain_size, e1) refl)

  -- `verify` succeeds exactly if the blob of every chunk is there and decrypts to as many bytes as
  -- its row says.
  pub verify_iff :
      (v : Vault) → ((r : ℕ × ℕ) × (verify v ≡ ok r)) ↔ All (IsReadable v.blobs) v.db.chunks
  unfolding verify
  verify_iff v =
      let (f, g) = All-sort_by (IsReadable v.blobs) (λ a b. leb a.id b.id) v.db.chunks in
      (
        (λ (r, h).
            let (n, e, _) =
              >>=-eq-ok (verify_rows (sort_by (λ a b. leb a.id b.id) v.db.chunks) v.blobs) _ h in
            f (verify_rows-IsReadable _ v.blobs n e)),
        λ h.
            let (n, e) =
              verify_rows_succeeds (sort_by (λ a b. leb a.id b.id) v.db.chunks) v.blobs (g h) in
            ((length v.db.chunks, n), rw e refl),
      )
