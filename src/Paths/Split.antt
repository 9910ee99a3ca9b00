-- ===== src/Paths/Split.antt =====
-- `split` and `join` on slashes, for segments without a slash.
use mathlib.Core.List.{reverse, reverse-append}
use personal_secure_node.Prelude.{
  ℕ, Text, ◌≡◌, ◌≢◌, refl, ap, ◌∙◌, Bool, false, List, [], ◌∷◌, ◌++◌, ◌==◌, All, All-append,
  Bool-cases, inl, inr,
}
use personal_secure_node.Paths.{slash, backslash, split, join, cons_head, lstrip, strip, is_space}

abbrev pub NoSlash : Text → Type 0
NoSlash = All (λ c. (c == slash) ≡ false)

abbrev pub NoBackslash : Text → Type 0
NoBackslash = All (λ c. (c == backslash) ≡ false)

-- a segment's characters
abbrev pub IsClean : Text → Type 0
IsClean = All (λ c. ((c == slash) ≡ false) × ((c == backslash) ≡ false))

pub split-ne-nil : (t : Text) → split t ≢ []
unfolding split
split-ne-nil [] = λ h. cc
split-ne-nil (c ∷ cs) = elim (Bool-cases (c == slash)) [
  | inl e ↦ rw e (λ h. cc)
  | inr e ↦ rw e (cons_head-ne-nil (split cs))
]
  where
    cons_head-ne-nil : (ss : List Text) → cons_head c ss ≢ []
    cons_head-ne-nil [] h = cc
    cons_head-ne-nil (s ∷ ss) h = cc

cons_head-All :
    (c : ℕ) (ss : List Text)
    → (c == slash) ≡ false
    → (c == backslash) ≡ false
    → All IsClean ss
    → All IsClean (cons_head c ss)
unfolding cons_head
cons_head-All c [] h k a = ((((h, k), tt)), tt)
cons_head-All c (s ∷ ss) h k a = ((((h, k), a.0)), a.1)

-- The segments of a text with no backslash are clean.
pub split-IsClean : (t : Text) → NoBackslash t → All IsClean (split t)
unfolding split
split-IsClean [] h = (tt, tt)
split-IsClean (c ∷ cs) h = elim (Bool-cases (c == slash)) [
  | inl e ↦ rw e (tt, split-IsClean cs h.1)
  | inr e ↦ rw e (cons_head-All c (split cs) e h.0 (split-IsClean cs h.1))
]

pub split_segment : (s : Text) → IsClean s → split s ≡ s ∷ []
unfolding split cons_head
split_segment [] h = refl
split_segment (c ∷ cs) h = rw (h.0.0, split_segment cs h.1)

pub split-append_slash : (s t : Text) → IsClean s → split (s ++ (slash ∷ t)) ≡ s ∷ split t
unfolding split cons_head
split-append_slash [] t h = refl
split-append_slash (c ∷ cs) t h = rw (h.0.0, split-append_slash cs t h.1)

-- Splitting a joined list gives the list back.
pub split-join : (ss : List Text) → ss ≢ [] → All IsClean ss → split (join ss) ≡ ss
unfolding join
split-join [] ne h = absurd (ne refl)
split-join (s ∷ []) ne h = split_segment s h.0
split-join (s ∷ t ∷ ts) ne h =
    split-append_slash s (join (t ∷ ts)) h.0 ∙ ap (λ r. s ∷ r) (split-join (t ∷ ts) (λ e. cc) h.1)

pub join-NoBackslash : (ss : List Text) → All IsClean ss → NoBackslash (join ss)
unfolding join
join-NoBackslash [] h = tt
join-NoBackslash (s ∷ []) h = clean s h.0
  where
    clean : (t : Text) → IsClean t → NoBackslash t
    clean [] k = tt
    clean (c ∷ cs) k = (k.0.1, clean cs k.1)
join-NoBackslash (s ∷ t ∷ ts) h =
    All-append _ s (slash ∷ join (t ∷ ts)) (clean s h.0) (refl, join-NoBackslash (t ∷ ts) h.1)
  where
    clean : (t : Text) → IsClean t → NoBackslash t
    clean [] k = tt
    clean (c ∷ cs) k = (k.0.1, clean cs k.1)

pub All-reverse {ℓ κ} : {A : Type ℓ} (P : A → Type κ) (xs : List A) → All P xs → All P (reverse xs)
All-reverse P [] h = tt
All-reverse P (x ∷ xs) h =
    rw (reverse-append (x ∷ []) xs)
      (All-append P (reverse xs) (x ∷ []) (All-reverse P xs h.1) (h.0, tt))

pub lstrip-All {κ} : (P : ℕ → Type κ) (p : ℕ → Bool) (t : Text) → All P t → All P (lstrip p t)
unfolding lstrip
lstrip-All P p [] h = tt
lstrip-All P p (c ∷ cs) h = elim (Bool-cases (p c)) [
  | inl e ↦ rw e (lstrip-All P p cs h.1)
  | inr e ↦ rw e h
]

pub strip-All {κ} : (P : ℕ → Type κ) (t : Text) → All P t → All P (strip t)
unfolding strip
strip-All P t h =
    All-reverse P _ (lstrip-All P is_space _ (All-reverse P _ (lstrip-All P is_space t h)))
