-- ===== src/Vault/Trash.antt =====
-- A file that is deleted and restored: `delete_file`, then `restore_file`.
use personal_secure_node.Prelude.{
  ℕ, ◌<◌, Text, Bool, true, false, not, ◌&&◌, ◌||◌, Option, none, some, List, [], ◌∷◌, ◌++◌, ok,
  ◌≡◌, refl, sym, ap, ◌∙◌, arith, All, text_eq, ◌==◌, ==_refl, find_first, select, update_where,
  latest, any, find_first-none, update_where-none, Bool-cases, inl, inr,
}
use personal_secure_node.Paths.{normalize_virtual_path}
use personal_secure_node.Schema.{Db, File, file_deleted, file_restored}
use personal_secure_node.Schema.Statements.{
  is_null, is_live_at, live_file, set_deleted_at, clear_deleted_at, insert_event,
}
use personal_secure_node.Vault.Files.{time_of, last_deleted, delete_file, restore_file}

module _ {A : Type 0} where
  find_first-between :
      (p : A → Bool) (x : A) (xs ys : List A)
      → any p xs ≡ false
      → p x ≡ true
      → find_first p (xs ++ x ∷ ys) ≡ some x
  unfolding find_first any
  find_first-between p x [] ys h k = rw k refl
  find_first-between p x (y ∷ xs) ys h k = ground (arith, find_first-between p x xs ys)

  update_where-between :
      (p : A → Bool) (f : A → A) (x : A) (xs ys : List A)
      → any p xs ≡ false
      → any p ys ≡ false
      → p x ≡ true
      → update_where p f (xs ++ x ∷ ys) ≡ xs ++ f x ∷ ys
  unfolding update_where any
  update_where-between p f x [] ys h h' k = rw (k, update_where-none p f ys h') refl
  update_where-between p f x (y ∷ xs) ys h h' k = ground (arith, update_where-between p f x xs ys)

  latest-cons :
      (key : A → ℕ) (x : A) (xs : List A)
      → ((z : A) → latest key xs ≡ some z → key z < key x)
      → latest key (x ∷ xs) ≡ some x
  unfolding latest
  latest-cons key x xs h = go (latest key xs) refl
    where
      go : (o : Option A) → latest key xs ≡ o → latest key (x ∷ xs) ≡ some x
      go none e = rw e refl
      go (some z) e = let l = h z e in rw e (ground arith)

  latest-cons_lt :
      (key : A → ℕ) (x z : A) (xs : List A)
      → latest key xs ≡ some z
      → key x < key z
      → latest key (x ∷ xs) ≡ some z
  unfolding latest
  latest-cons_lt key x z xs e l = rw e (ground arith)

  latest-cons_below :
      (key : A → ℕ) (n : ℕ) (x : A) (xs : List A)
      → key x < n
      → ((z : A) → latest key xs ≡ some z → key z < n)
      → (z : A) → latest key (x ∷ xs) ≡ some z
      → key z < n
  unfolding latest
  latest-cons_below key n x xs l h z e = go (latest key xs) refl
    where
      go : (o : Option A) → latest key xs ≡ o → key z < n
      go none k = let same = rw k at e in ground arith
      go (some y) k = let last = rw k at e in let b = h y k in ground arith

  -- of rows with keys below `n`, the latest has a key below `n`
  latest-below :
      (key : A → ℕ) (p : A → Bool) (n : ℕ) (xs : List A)
      → All (λ x. key x < n) xs
      → (z : A) → latest key (select p xs) ≡ some z
      → key z < n
  unfolding select latest
  latest-below key p n [] h z e = cc
  latest-below key p n (x ∷ xs) h z e = elim (Bool-cases (p x)) [
    | inl k ↦
        latest-cons_below key n x (select p xs) h.0 (latest-below key p n xs h.1) z (rw k at e)
    | inr k ↦ latest-below key p n xs h.1 z (rw k at e)
  ]

  latest-between :
      (key : A → ℕ) (p : A → Bool) (x : A) (xs ys : List A)
      → All (λ y. key y < key x) xs
      → All (λ y. key y < key x) ys
      → p x ≡ true
      → latest key (select p (xs ++ x ∷ ys)) ≡ some x
  unfolding select
  latest-between key p x [] ys h h' k =
      rw k (latest-cons key x (select p ys) (latest-below key p (key x) ys h'))
  latest-between key p x (y ∷ xs) ys h h' k =
      let rest = latest-between key p x xs ys h.1 h' k in
      elim (Bool-cases (p y)) [
        | inl e ↦ rw e (latest-cons_lt key y x (select p (xs ++ x ∷ ys)) rest h.0)
        | inr e ↦ rw e rest
      ]

  any-both : (p q : A → Bool) (xs : List A) → any p xs ≡ false → any (λ x. p x && q x) xs ≡ false
  unfolding any
  any-both p q [] h = refl
  any-both p q (x ∷ xs) h = ground (arith, any-both p q xs)

  any-either :
      (p q : A → Bool) (xs ys : List A)
      → any (λ x. p x || q x) (xs ++ ys) ≡ false
      → (any p xs ≡ false) × (any p ys ≡ false) × (any q xs ≡ false) × (any q ys ≡ false)
  unfolding any
  any-either p q [] [] h = (refl, refl, refl, refl)
  any-either p q [] (y ∷ ys) h = ground (arith, any-either p q [] ys)
  any-either p q (x ∷ xs) ys h = ground (arith, any-either p q xs ys)

  All-parts : (P : A → Type 0) (xs ys : List A) → All P (xs ++ ys) → All P xs × All P ys
  All-parts P [] ys h = (tt, h)
  All-parts P (x ∷ xs) ys h = let (a, b) = All-parts P xs ys h.1 in ((h.0, a), b)

  any-between :
      (p : A → Bool) (x : A) (xs ys : List A)
      → any p xs ≡ false
      → any p ys ≡ false
      → p x ≡ false
      → any p (xs ++ x ∷ ys) ≡ false
  unfolding any
  any-between p x [] ys h h' k = ground (arith, h', k)
  any-between p x (y ∷ xs) ys h h' k = ground (arith, any-between p x xs ys)

-- the file in the trash
abbrev trashed : ℕ → File → File
trashed t f = record f { deleted_at = some t }

delete_file-ok :
    (t : ℕ) (raw path : Text) (db : Db) (file : File) (files : List File)
    → normalize_virtual_path raw ≡ ok path
    → find_first (is_live_at path) db.files ≡ some file
    → update_where (λ f. file.id == f.id) (trashed t) db.files ≡ files
    → delete_file t raw db
      ≡ ok (
        tt,
        insert_event file_deleted file.id file.current_version_id t (record db { files = files }),
      )
unfolding delete_file live_file set_deleted_at
delete_file-ok t raw path db file files h found updated = rw (h, found, updated) refl

restore_file-ok :
    (u : ℕ) (raw path : Text) (db : Db) (file : File) (files : List File)
    → normalize_virtual_path raw ≡ ok path
    → last_deleted path db ≡ some file
    → any (is_live_at path) db.files ≡ false
    → update_where (λ f. file.id == f.id) (λ f. record f { deleted_at = none }) db.files ≡ files
    → restore_file u raw db
      ≡ ok (
        tt,
        insert_event file_restored file.id file.current_version_id u (record db { files = files }),
      )
unfolding restore_file clear_deleted_at
restore_file-ok u raw path db file files h found free updated =
    rw
      (
        h,
        found,
        free,
        any-both (is_live_at path) (λ f. not (file.id == f.id)) db.files free,
        updated,
      )
      refl

is_live_at-null : (path : Text) (f : File) → is_live_at path f ≡ true → f.deleted_at ≡ none
is_live_at-null path f live = go f.deleted_at refl
  where
    go : (o : Option ℕ) → f.deleted_at ≡ o → f.deleted_at ≡ none
    go none e = e
    go (some t) e = let dead = rw e at live in ground (arith, dead)

is_live_at-trashed : (t : ℕ) (path : Text) (f : File) → is_live_at path (trashed t f) ≡ false
is_live_at-trashed t path f = ground arith

-- Deleting the live file of a path, later than every deletion before it, leaves no live file there, and
-- restoring the path at any later time succeeds and gives back the table of files as it was. The
-- table has no other row with the file's id, and no other live row for its path.
pub restore_file-delete_file :
    (t u : ℕ) (raw path : Text) (db : Db) (file : File) (before after : List File)
    → normalize_virtual_path raw ≡ ok path
    → db.files ≡ before ++ file ∷ after
    → is_live_at path file ≡ true
    → any (λ f. file.id == f.id || is_live_at path f) (before ++ after) ≡ false
    → All (λ (f : File). time_of f.deleted_at < t) (before ++ after)
    → (deleted : Db) × (delete_file t raw db ≡ ok (tt, deleted))
      × (live_file path deleted ≡ none)
      × (restored : Db) × (restore_file u raw deleted ≡ ok (tt, restored))
      × (restored.files ≡ db.files)
unfolding live_file last_deleted insert_event
restore_file-delete_file t u raw path db file before after h e live others times =
    let (id1, id2, live1, live2) =
      any-either (λ f. file.id == f.id) (is_live_at path) before after others in
    let (times1, times2) = All-parts (λ f. time_of f.deleted_at < t) before after times in
    let files : List File = before ++ trashed t file ∷ after in
    let deleted : Db =
      insert_event file_deleted file.id file.current_version_id t (record db { files = files }) in
    let free : any (is_live_at path) files ≡ false =
      any-between (is_live_at path) (trashed t file) before after live1 live2
        (is_live_at-trashed t path file) in
    let in_trash : text_eq path file.virtual_path ≡ true = ground (arith, live) in
    (
      deleted,
      delete_file-ok t raw path db file files h
          (ap (find_first (is_live_at path)) e
            ∙ find_first-between (is_live_at path) file before after live1 live)
          (ap (update_where (λ f. file.id == f.id) (trashed t)) e
            ∙ update_where-between (λ f. file.id == f.id) (trashed t) file before after id1 id2
                (==_refl file.id)),
      find_first-none (is_live_at path) files free,
      insert_event file_restored file.id file.current_version_id u
          (record deleted { files = before ++ file ∷ after }),
      restore_file-ok u raw path deleted (trashed t file) (before ++ file ∷ after) h
          (latest-between (λ f. time_of f.deleted_at)
            (λ f. text_eq path f.virtual_path && not (is_null f.deleted_at)) (trashed t file) before
            after times1 times2 (rw in_trash refl))
          free
          (update_where-between (λ f. file.id == f.id) (λ f. record f { deleted_at = none })
              (trashed t file) before after id1 id2 (==_refl file.id)
            ∙ ap (λ o. before ++ record file { deleted_at = o } ∷ after)
                (sym (is_live_at-null path file live))),
      sym e,
    )
