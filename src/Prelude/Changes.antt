-- ===== src/Prelude/Changes.antt =====
-- What a lookup finds in a table after an INSERT, an UPDATE or an ORDER BY.
use mathlib.Core.Path.{◌≡◌, refl}
use mathlib.Core.Bool.{Bool, true, false, ◌||◌}
use mathlib.Core.Option.{none, some}
use mathlib.Core.List.{List, [], ◌∷◌, ◌++◌}
use native.Mathlib.Omega.{arith}
use personal_secure_node.Prelude.Tables.{find_first, select, update_where, sort_by, insert_by, any}

module _ {ℓ} {A : Type ℓ} where
  pub any-insert_by :
      (p : A → Bool) (le : A → A → Bool) (x : A) (xs : List A)
      → any p (insert_by le x xs) ≡ (p x || any p xs)
  unfolding any insert_by
  any-insert_by p le x [] = refl
  any-insert_by p le x (y ∷ ys) = ground (arith, any-insert_by p le x ys)

  -- Sorting neither loses a row nor makes one.
  pub any-sort_by :
      (p : A → Bool) (le : A → A → Bool) (xs : List A) → any p (sort_by le xs) ≡ any p xs
  unfolding any sort_by
  any-sort_by p le [] = refl
  any-sort_by p le (x ∷ xs) =
      ground (arith, any-insert_by p le x (sort_by le xs), any-sort_by p le xs)

  pub any-append : (p : A → Bool) (xs ys : List A) → any p (xs ++ ys) ≡ (any p xs || any p ys)
  unfolding any
  any-append p [] ys = refl
  any-append p (x ∷ xs) ys = ground (arith, any-append p xs ys)

  pub update_where-append :
      (p : A → Bool) (f : A → A) (xs ys : List A)
      → update_where p f (xs ++ ys) ≡ update_where p f xs ++ update_where p f ys
  unfolding update_where
  update_where-append p f [] ys = refl
  update_where-append p f (x ∷ xs) ys = cc (update_where-append p f xs ys)

  -- An UPDATE that no row fits leaves the table.
  pub update_where-none :
      (p : A → Bool) (f : A → A) (xs : List A) → any p xs ≡ false → update_where p f xs ≡ xs
  unfolding any update_where
  update_where-none p f [] h = refl
  update_where-none p f (x ∷ xs) h = ground (arith, update_where-none p f xs)

  -- An UPDATE of other rows, which leaves the looked-up columns alone, keeps what a lookup finds.
  pub update_where-find_other :
      (p q : A → Bool) (f : A → A) (xs : List A)
      → ((x : A) → q x ≡ true → p (f x) ≡ false)
      → ((x : A) → p x ≡ true → q x ≡ false)
      → find_first p (update_where q f xs) ≡ find_first p xs
  unfolding find_first update_where
  update_where-find_other p q f [] h k = refl
  update_where-find_other p q f (x ∷ xs) h k =
      ground (arith, update_where-find_other p q f xs h k, h x, k x)

  -- An INSERT at the end is found when nothing was found before.
  pub find_first-append :
      (p : A → Bool) (xs ys : List A)
      → find_first p (xs ++ ys)
        ≡ (elim (find_first p xs) [ none ↦ find_first p ys | some x ↦ some x ])
  unfolding find_first
  find_first-append p [] ys = refl
  find_first-append p (x ∷ xs) ys = ground (arith, find_first-append p xs ys)

  pub find_first-none : (p : A → Bool) (xs : List A) → any p xs ≡ false → find_first p xs ≡ none
  unfolding any find_first
  find_first-none p [] h = refl
  find_first-none p (x ∷ xs) h = ground (arith, find_first-none p xs)

  pub select-append :
      (p : A → Bool) (xs ys : List A) → select p (xs ++ ys) ≡ select p xs ++ select p ys
  unfolding select
  select-append p [] ys = refl
  select-append p (x ∷ xs) ys = ground (arith, select-append p xs ys)

  -- An UPDATE that sets every column of the rows that a lookup fits.
  pub find_first-update_own :
      (p : A → Bool) (r : A) (xs : List A)
      → p r ≡ true
      → any p xs ≡ true
      → find_first p (update_where p (λ x. r) xs) ≡ some r
  unfolding any find_first update_where
  find_first-update_own p r [] h k = cc
  find_first-update_own p r (x ∷ xs) h k = ground (arith, find_first-update_own p r xs h)

  pub select-none : (p : A → Bool) (xs : List A) → any p xs ≡ false → select p xs ≡ []
  unfolding any select
  select-none p [] h = refl
  select-none p (x ∷ xs) h = ground (arith, select-none p xs)
