-- ===== src/Prelude/Tables.antt =====
-- What the SQL statements of the program do to a table, which is the list of its rows in the order
-- of insertion: SELECT, UPDATE and DELETE with a WHERE test, ORDER BY and COUNT.
use Prim.Native.Nat.{ℕ, ◌+◌, ◌≤◌}
use mathlib.Core.Path.{◌≡◌, refl, subst}
use mathlib.Core.Bool.{Bool, true, false, not, ◌||◌}
use mathlib.Core.Option.{Option, none, some}
use mathlib.Core.Option
use mathlib.Core.List.{List, [], ◌∷◌, ◌++◌}
use native.Mathlib.Omega.{arith}
use personal_secure_node.Prelude.Lists.{All, All-map}
use personal_secure_node.Prelude.Tests.{==_refl, if◌then◌else◌, ltb, ◌==◌, Bool-cases}
use mathlib.Core.Logic.{inl, inr}

module _ {ℓ} {A : Type ℓ} where
  -- `SELECT … WHERE p` and `fetchone`, where the rows are in no particular order
  unfoldable pub find_first : (A → Bool) → List A → Option A
  find_first p [] = none
  find_first p (x ∷ xs) = if p x then some x else find_first p xs

  -- `SELECT … WHERE p` and `fetchall`; `DELETE … WHERE p` keeps the others
  unfoldable pub select : (A → Bool) → List A → List A
  select p [] = []
  select p (x ∷ xs) = let rest = select p xs in if p x then x ∷ rest else rest

  -- `UPDATE … SET f WHERE p`
  unfoldable pub update_where : (A → Bool) → (A → A) → List A → List A
  update_where p f [] = []
  update_where p f (x ∷ xs) = (if p x then f x else x) ∷ update_where p f xs

  -- `ORDER BY key DESC LIMIT 1`; of equal keys the first row in the table
  unfoldable pub latest : (A → ℕ) → List A → Option A
  latest key [] = none
  latest key (x ∷ xs) = elim (latest key xs) [
    | none ↦ some x
    | some y ↦ if ltb (key x) (key y) then some y else some x
  ]

  unfoldable pub any : (A → Bool) → List A → Bool
  any p [] = false
  any p (x ∷ xs) = p x || any p xs

  -- how many rows have the key `k`
  unfoldable pub uses : (A → ℕ) → ℕ → List A → ℕ
  uses key k [] = 0
  uses key k (x ∷ xs) = (if k == key x then 1 else 0) + uses key k xs

  -- a stable insertion sort, for ORDER BY
  unfoldable pub insert_by : (A → A → Bool) → A → List A → List A
  insert_by le x [] = x ∷ []
  insert_by le x (y ∷ ys) = if le x y then x ∷ y ∷ ys else y ∷ insert_by le x ys

  unfoldable pub sort_by : (A → A → Bool) → List A → List A
  sort_by le [] = []
  sort_by le (x ∷ xs) = insert_by le x (sort_by le xs)

  pub find_first_holds :
      (p : A → Bool) (xs : List A) (x : A) → find_first p xs ≡ some x → p x ≡ true
  unfolding find_first
  find_first_holds p [] x h = cc
  find_first_holds p (y ∷ xs) x h = ground (arith, find_first_holds p xs x)

  pub any-find_first :
      (p : A → Bool) (xs : List A) → any p xs ≡ true → (x : A) × (find_first p xs ≡ some x)
  unfolding any find_first
  any-find_first p [] h = cc
  any-find_first p (x ∷ xs) h = elim (Bool-cases (p x)) [
    | inl e ↦ (x, rw e)
    | inr e ↦ let (y, found) = any-find_first p xs (ground arith) in (y, rw e found)
  ]

  -- A row that a DELETE keeps is found as before.
  pub find_first-select :
      (p q : A → Bool) (xs : List A)
      → ((x : A) → p x ≡ true → q x ≡ true)
      → find_first p (select q xs) ≡ find_first p xs
  unfolding find_first select
  find_first-select p q [] h = refl
  find_first-select p q (x ∷ xs) h = ground (arith, find_first-select p q xs h, h x)

  -- A lookup after an UPDATE that leaves the looked-up columns alone.
  pub update_where-find :
      (p q : A → Bool) (f : A → A) (xs : List A)
      → ((x : A) → p (f x) ≡ p x)
      → find_first p (update_where q f xs)
        ≡ Option.map (λ x. if q x then f x else x) (find_first p xs)
  unfolding find_first update_where
  update_where-find p q f [] h = refl
  update_where-find p q f (x ∷ xs) h = ground (arith, update_where-find p q f xs h, h x)

  pub uses-append :
      (key : A → ℕ) (k : ℕ) (xs ys : List A) → uses key k (xs ++ ys) ≡ uses key k xs + uses key k ys
  unfolding uses
  uses-append key k [] ys = omega arith
  uses-append key k (x ∷ xs) ys = omega (arith, uses-append key k xs ys)

  -- A DELETE splits the count of every key.
  pub uses-select :
      (key : A → ℕ) (k : ℕ) (p : A → Bool) (xs : List A)
      → uses key k xs ≡ uses key k (select p xs) + uses key k (select (λ x. not (p x)) xs)
  unfolding uses select
  uses-select key k p [] = omega arith
  uses-select key k p (x ∷ xs) = ground (arith, uses-select key k p xs)

  -- An UPDATE that leaves the key alone keeps the counts of keys.
  pub uses-update_where :
      (key : A → ℕ) (k : ℕ) (q : A → Bool) (f : A → A) (xs : List A)
      → ((x : A) → key (f x) ≡ key x)
      → uses key k (update_where q f xs) ≡ uses key k xs
  unfolding uses update_where
  uses-update_where key k q f [] h = refl
  uses-update_where key k q f (x ∷ xs) h = ground (arith, uses-update_where key k q f xs h, h x)

  pub uses-find_first :
      (key : A → ℕ) (k : ℕ) (xs : List A)
      → find_first (λ x. k == key x) xs ≡ none
      → uses key k xs ≡ 0
  unfolding uses find_first
  uses-find_first key k [] h = refl
  uses-find_first key k (x ∷ xs) h = ground (arith, uses-find_first key k xs)

  -- With one row of a key at most, a DELETE leaves the row that a lookup finds, or none.
  pub find_first-select_key :
      (key : A → ℕ) (k : ℕ) (q : A → Bool) (xs : List A)
      → uses key k xs ≤ 1
      → find_first (λ x. k == key x) (select q xs) ≡ (elim (find_first (λ x. k == key x) xs) [
        | none ↦ none
        | some x ↦ if q x then some x else none
      ])
  unfolding uses find_first select
  find_first-select_key key k q [] h = refl
  find_first-select_key key k q (x ∷ xs) h = ground (arith, find_first-select_key key k q xs, gone)
    where
      gone : (k == key x) ≡ true → find_first (λ y. k == key y) (select q xs) ≡ none
      gone e = absent-select xs (ground arith)
        where
          absent-select :
              (ys : List A) → uses key k ys ≡ 0 → find_first (λ y. k == key y) (select q ys) ≡ none
          absent-select [] z = refl
          absent-select (y ∷ ys) z = ground (arith, absent-select ys)

  -- With one row of each key at most, every row is the one that a lookup of its key finds.
  pub find_first-All :
      (key : A → ℕ) (xs : List A)
      → ((k : ℕ) → uses key k xs ≤ 1)
      → All (λ c. find_first (λ x. key c == key x) xs ≡ some c) xs
  unfolding uses find_first
  find_first-All key [] h = tt
  find_first-All key (x ∷ xs) h =
      ((rw ==_refl), All-map _ _ xs later (find_first-All key xs (λ k. ground (arith, h k))))
    where
      counted :
          (k : ℕ) (c : A) (ys : List A)
          → find_first (λ y. k == key y) ys ≡ some c
          → 1 ≤ uses key k ys
      counted k c [] e = cc
      counted k c (y ∷ ys) e = ground (arith, counted k c ys)

      later :
          (c : A)
          → find_first (λ y. key c == key y) xs ≡ some c
          → find_first (λ y. key c == key y) (x ∷ xs) ≡ some c
      later c e = ground (arith, counted (key c) c xs e, h (key c))

  pub any-uses :
      (key : A → ℕ) (k : ℕ) (xs : List A) → uses key k xs ≡ 0 → any (λ x. k == key x) xs ≡ false
  unfolding uses any
  any-uses key k [] h = refl
  any-uses key k (x ∷ xs) h = ground (arith, any-uses key k xs)

  pub All-find_first {κ} :
      (P : A → Type κ) (p : A → Bool) (xs : List A) (x : A)
      → All P xs
      → find_first p xs ≡ some x
      → P x
  unfolding find_first
  All-find_first P p [] x h e = cc
  All-find_first P p (y ∷ xs) x h e = elim (Bool-cases (p y)) [
    | inl t ↦ let same : y ≡ x = ground arith in subst P same h.0
    | inr t ↦ All-find_first P p xs x h.1 (rw (t, find_first) at e)
  ]

  -- After an UPDATE every row that the test fits has what the update sets.
  pub All-update_where {κ} :
      (P : A → Type κ) (p : A → Bool) (f : A → A) (xs : List A)
      → ((x : A) → p x ≡ true → P (f x))
      → ((x : A) → p x ≡ false → P x)
      → All P (update_where p f xs)
  unfolding update_where
  All-update_where P p f [] h k = tt
  All-update_where P p f (x ∷ xs) h k = (one (p x) refl, All-update_where P p f xs h k)
    where
      one : (b : Bool) → p x ≡ b → P (if b then f x else x)
      one true e = h x e
      one false e = k x e

  pub select_holds : (p : A → Bool) (xs : List A) → All (λ x. p x ≡ true) (select p xs)
  unfolding select
  select_holds p [] = tt
  select_holds p (x ∷ xs) = elim (Bool-cases (p x)) [
    | inl e ↦ rw e (e, select_holds p xs)
    | inr e ↦ rw e (select_holds p xs)
  ]
