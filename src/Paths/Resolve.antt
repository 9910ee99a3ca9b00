-- ===== src/Paths/Resolve.antt =====
-- The loop of `posixpath.normpath` over the components of a path.
use mathlib.Core.List.{reverse, reverse_aux, reverse-reverse}
use personal_secure_node.Prelude.{
  Text, ◌≡◌, ◌≢◌, refl, ap, ◌∙◌, Bool, true, false, not, ◌||◌, List, [], ◌∷◌, ◌++◌, arith, ◌==◌,
  text_eq, All, Bool-cases, inl, inr,
}
use personal_secure_node.Paths.{
  slash, dot, dotdot, split, join, is_nil, is_void, push_component, resolve, initial_slashes,
  lstrip, normpath,
}
use personal_secure_node.Paths.Split.{IsClean, NoBackslash, split-IsClean, split-join, All-reverse}

-- a component that the loop keeps: clean, not empty and not "."
abbrev pub IsSegment : Text → Type 0
IsSegment s = IsClean s × (is_void s ≡ false)

-- a segment that is not ".." either
abbrev pub IsNormal : Text → Type 0
IsNormal s = IsClean s × (is_void s ≡ false) × (text_eq s dotdot ≡ false)

push_component-All :
    (absolute : Bool) (stack : List Text) (comp : Text)
    → All IsSegment stack
    → IsClean comp
    → All IsSegment (push_component absolute stack comp)
unfolding push_component
push_component-All absolute [] comp h k = ground arith
push_component-All absolute (s ∷ ss) comp h k = ground arith

resolve-All :
    (absolute : Bool) (stack cs : List Text)
    → All IsSegment stack
    → All IsClean cs
    → All IsSegment (resolve absolute stack cs)
unfolding resolve
resolve-All absolute stack [] h k = h
resolve-All absolute stack (c ∷ cs) h k =
    resolve-All absolute (push_component absolute stack c) cs
      (push_component-All absolute stack c h k.0) k.1

-- With nothing to drop, the loop only moves the components to the stack.
resolve_plain :
    (absolute : Bool) (stack cs : List Text)
    → All IsNormal cs
    → resolve absolute stack cs ≡ reverse_aux cs stack
unfolding resolve
resolve_plain absolute stack [] h = refl
resolve_plain absolute stack (c ∷ cs) h =
    ap (λ s. resolve absolute s cs) (push_plain h.0) ∙ resolve_plain absolute (c ∷ stack) cs h.1
  where
    push_plain : IsNormal c → push_component absolute stack c ≡ c ∷ stack
    push_plain k = unfold push_component in rw (k.1, k.2)

-- `comps` after the loop of `normpath`
abbrev pub components : Text → List Text
components t = reverse (resolve (not (is_nil (initial_slashes t))) [] (split t))

pub components-All : (t : Text) → NoBackslash t → All IsSegment (components t)
components-All t h = All-reverse IsSegment _ (resolve-All _ [] (split t) tt (split-IsClean t h))

pub components-join : (ss : List Text) → ss ≢ [] → All IsNormal ss → components (join ss) ≡ ss
components-join ss ne h =
    ap (λ cs. reverse (resolve (not (is_nil (initial_slashes (join ss)))) [] cs))
      (split-join ss ne (clean ss h))
    ∙ ap reverse (resolve_plain _ [] ss h)
    ∙ reverse-reverse ss
  where
    clean : (ts : List Text) → All IsNormal ts → All IsClean ts
    clean [] k = tt
    clean (t ∷ ts) k = (k.0.0, clean ts k.1)

split_rooted : (t : Text) → split (slash ∷ t) ≡ [] ∷ split t
unfolding split
split_rooted t = refl

resolve_void :
    (absolute : Bool) (stack cs : List Text)
    → resolve absolute stack ([] ∷ cs) ≡ resolve absolute stack cs
unfolding resolve push_component is_void
resolve_void absolute stack cs = refl

-- A leading slash adds an empty component, which the loop skips.
pub components-rooted :
    (ss : List Text) → ss ≢ [] → All IsNormal ss → components (slash ∷ join ss) ≡ ss
components-rooted ss ne h =
    ap (λ cs. reverse (resolve (not (is_nil (initial_slashes (slash ∷ join ss)))) [] cs))
      (split_rooted (join ss) ∙ ap (λ cs. [] ∷ cs) (split-join ss ne (clean ss h)))
    ∙ ap reverse (resolve_void (not (is_nil (initial_slashes (slash ∷ join ss)))) [] ss)
    ∙ ap reverse (resolve_plain (not (is_nil (initial_slashes (slash ∷ join ss)))) [] ss h)
    ∙ reverse-reverse ss
  where
    clean : (ts : List Text) → All IsNormal ts → All IsClean ts
    clean [] k = tt
    clean (t ∷ ts) k = (k.0.0, clean ts k.1)

-- Leading slashes do not outlive `lstrip("/")`.
lstrip-initial_slashes :
    (t x : Text) → lstrip (λ c. c == slash) (initial_slashes t ++ x) ≡ lstrip (λ c. c == slash) x
unfolding initial_slashes lstrip
lstrip-initial_slashes t x = ground arith

lstrip-join : (ss : List Text) → All IsSegment ss → lstrip (λ c. c == slash) (join ss) ≡ join ss
unfolding lstrip join is_void
lstrip-join [] h = refl
lstrip-join ([] ∷ ss) h = cc (h.0.1)
lstrip-join ((c ∷ cs) ∷ []) h = rw h.0.0.0.0
lstrip-join ((c ∷ cs) ∷ t ∷ ts) h = rw h.0.0.0.0

abbrev nothing_left : Text → Bool
nothing_left t = is_nil t || is_nil (initial_slashes t ++ join (components t))

normpath_void : (t : Text) → nothing_left t ≡ true → normpath t ≡ dot
unfolding normpath
normpath_void t e = rw e

normpath_rest :
    (t : Text) → nothing_left t ≡ false → normpath t ≡ initial_slashes t ++ join (components t)
unfolding normpath
normpath_rest t e = rw e

lstrip-dot : is_void (lstrip (λ c. c == slash) dot) ≡ true
unfolding lstrip is_void text_eq
lstrip-dot = refl

-- What is left of a path after `normpath` and `lstrip("/")`.
pub lstrip-normpath :
    (t : Text)
    → NoBackslash t
    → is_void (lstrip (λ c. c == slash) (normpath t)) ≡ false
    → lstrip (λ c. c == slash) (normpath t) ≡ join (components t)
lstrip-normpath t h k = elim (Bool-cases (nothing_left t)) [
  | inl e ↦ cc (k, lstrip-dot, ap (λ p. is_void (lstrip (λ c. c == slash) p)) (normpath_void t e))
  | inr e ↦
      ap (lstrip (λ c. c == slash)) (normpath_rest t e)
      ∙ lstrip-initial_slashes t (join (components t))
      ∙ lstrip-join (components t) (components-All t h)
]

-- Where the loop keeps normal segments, `normpath` and `lstrip("/")` leave them joined.
pub lstrip-normpath_normal :
    (t : Text) (ss : List Text)
    → components t ≡ ss
    → All IsNormal ss
    → is_nil t ≡ false
    → is_nil (join ss) ≡ false
    → lstrip (λ c. c == slash) (normpath t) ≡ join ss
lstrip-normpath_normal t ss e h some_text some_join =
    ap (lstrip (λ c. c == slash)) (normpath_rest t left)
    ∙ lstrip-initial_slashes t (join (components t))
    ∙ ap (λ cs. lstrip (λ c. c == slash) (join cs)) e
    ∙ lstrip-join ss (segments ss h)
  where
    append_nil : (a b : Text) → is_nil b ≡ false → is_nil (a ++ b) ≡ false
    append_nil [] b k = k
    append_nil (c ∷ cs) b k = unfold is_nil in refl

    segments : (ts : List Text) → All IsNormal ts → All IsSegment ts
    segments [] k = tt
    segments (x ∷ xs) k = ((k.0.0, k.0.1), segments xs k.1)

    left : nothing_left t ≡ false
    left = rw some_text (append_nil (initial_slashes t) (join (components t)) (rw e some_join))
