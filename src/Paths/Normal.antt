-- ===== src/Paths/Normal.antt =====
-- The form of the paths that `normalize_virtual_path` returns.
use personal_secure_node.Prelude.{
  Text, ◌≡◌, ◌≢◌, refl, ap, sym, subst, ◌∙◌, Bool, true, false, not, ◌||◌, List, [], ◌∷◌, arith,
  ◌==◌, text_eq, All, select, any, Bool-cases, inl, inr, ok, err, invalid_virtual_path,
  ok-injective,
}
use personal_secure_node.Paths.{
  slash, dotdot, join, is_nil, is_void, lstrip, strip, replace_backslash, normpath, parts_of,
  as_posix, normalize_virtual_path,
}
use personal_secure_node.Paths.Split.{NoBackslash, strip-All, split-join, IsClean, join-NoBackslash}
use personal_secure_node.Paths.Resolve.{
  IsSegment, IsNormal, components, components-All, components-join, lstrip-normpath,
  lstrip-normpath_normal,
}

-- a text that is a nonempty list of normal segments, joined by slashes
pub record IsNormalPath (p : Text) : Type 0 where
  pub segments : List Text
  pub spelled : p ≡ join segments
  pub nonempty : segments ≢ []
  pub normal : All IsNormal segments

pub replace_backslash-NoBackslash : (t : Text) → NoBackslash (replace_backslash t)
unfolding replace_backslash
replace_backslash-NoBackslash [] = tt
replace_backslash-NoBackslash (c ∷ cs) =
    (ground arith, (unfold replace_backslash in replace_backslash-NoBackslash cs))

pub replace_backslash_same : (t : Text) → NoBackslash t → replace_backslash t ≡ t
unfolding replace_backslash
replace_backslash_same [] h = refl
replace_backslash_same (c ∷ cs) h = rw (h.0, replace_backslash_same cs h.1)

pub IsSegment-IsClean : (ss : List Text) → All IsSegment ss → All IsClean ss
IsSegment-IsClean [] h = tt
IsSegment-IsClean (s ∷ ss) h = (h.0.0, IsSegment-IsClean ss h.1)

select_segments : (ss : List Text) → All IsSegment ss → select (λ s. not (is_void s)) ss ≡ ss
unfolding select
select_segments [] h = refl
select_segments (s ∷ ss) h = rw (h.0.1, select_segments ss h.1)

-- The parts of joined segments are the segments.
parts_of-join : (ss : List Text) → ss ≢ [] → All IsSegment ss → parts_of (join ss) ≡ ss
unfolding parts_of
parts_of-join ss ne h =
    ap (select (λ s. not (is_void s))) (split-join ss ne (IsSegment-IsClean ss h))
    ∙ select_segments ss h

no_dotdot :
    (ss : List Text) → All IsSegment ss → any (λ s. text_eq s dotdot) ss ≡ false → All IsNormal ss
unfolding any
no_dotdot [] h k = tt
no_dotdot (s ∷ ss) h k = ((h.0.0, h.0.1, ground arith), no_dotdot ss h.1 (ground arith))

normal-any : (ss : List Text) → All IsNormal ss → any (λ s. text_eq s dotdot) ss ≡ false
unfolding any
normal-any [] h = refl
normal-any (s ∷ ss) h = rw (h.0.2, normal-any ss h.1)

as_posix-join : (ss : List Text) → ss ≢ [] → as_posix ss ≡ join ss
unfolding as_posix
as_posix-join [] ne = absurd (ne refl)
as_posix-join (s ∷ ss) ne = refl

join_void : (ss : List Text) → is_void (join ss) ≡ false → ss ≢ []
unfolding is_void join
join_void [] h = λ e. cc
join_void (s ∷ ss) h = λ e. cc

-- the locals of the function
abbrev pub value : Text → Text
value raw = strip (replace_backslash raw)

abbrev normalized : Text → Text
normalized raw = lstrip (λ c. c == slash) (normpath (value raw))

abbrev refused : Text → Bool
refused raw =
    is_nil (value raw)
    || is_void (normalized raw)
    || any (λ s. text_eq s dotdot) (parts_of (normalized raw))

value-NoBackslash : (raw : Text) → NoBackslash (value raw)
value-NoBackslash raw = strip-All _ (replace_backslash raw) (replace_backslash-NoBackslash raw)

normalize_refused :
    (raw : Text) → refused raw ≡ true → normalize_virtual_path raw ≡ err invalid_virtual_path
unfolding normalize_virtual_path
normalize_refused raw e = rw e

normalize_accepted :
    (raw : Text)
    → refused raw ≡ false
    → normalize_virtual_path raw ≡ ok (as_posix (parts_of (normalized raw)))
unfolding normalize_virtual_path
normalize_accepted raw e = rw e

module _ (raw : Text) (accepted : refused raw ≡ false) where
  comps_nonvoid : is_void (normalized raw) ≡ false
  comps_nonvoid = ground arith

  no_parent : any (λ s. text_eq s dotdot) (parts_of (normalized raw)) ≡ false
  no_parent = ground arith

  normalized_lem : normalized raw ≡ join (components (value raw))
  normalized_lem = lstrip-normpath (value raw) (value-NoBackslash raw) comps_nonvoid

  comps_segments : All IsSegment (components (value raw))
  comps_segments = components-All (value raw) (value-NoBackslash raw)

  comps-ne-nil : components (value raw) ≢ []
  comps-ne-nil = join_void (components (value raw)) (rw normalized_lem at comps_nonvoid)

  parts_lem : parts_of (normalized raw) ≡ components (value raw)
  parts_lem = ap parts_of normalized_lem ∙ parts_of-join _ comps-ne-nil comps_segments

  accepted_form : IsNormalPath (as_posix (parts_of (normalized raw)))
  accepted_form = record {
    segments = components (value raw);
    spelled = ap as_posix parts_lem ∙ as_posix-join _ comps-ne-nil;
    nonempty = comps-ne-nil;
    normal = no_dotdot _ comps_segments (rw parts_lem at no_parent);
  }

-- Every accepted path is a nonempty list of segments joined by slashes, and no segment is empty,
-- "." or "..", or has a slash or a backslash in it.
pub normalize_virtual_path-IsNormalPath :
    (raw p : Text) → normalize_virtual_path raw ≡ ok p → IsNormalPath p
normalize_virtual_path-IsNormalPath raw p h = elim (Bool-cases (refused raw)) [
  | inl e ↦ cc (h, normalize_refused raw e)
  | inr e ↦
      subst IsNormalPath (ok-injective (sym (normalize_accepted raw e) ∙ h)) (accepted_form raw e)
]

pub join-is_void : (ss : List Text) → ss ≢ [] → All IsNormal ss → is_void (join ss) ≡ false
unfolding is_void join
join-is_void [] ne h = absurd (ne refl)
join-is_void (s ∷ []) ne h = h.0.1
join-is_void ([] ∷ t ∷ ts) ne h = cc (h.0.1)
join-is_void ((c ∷ []) ∷ t ∷ ts) ne h = unfold text_eq in ground arith
join-is_void ((c ∷ d ∷ cs) ∷ t ∷ ts) ne h = unfold text_eq in ground arith

pub void_of_nil : (t : Text) → is_void t ≡ false → is_nil t ≡ false
unfolding is_void
void_of_nil t h = ground arith

pub IsNormal-IsSegment : (ss : List Text) → All IsNormal ss → All IsSegment ss
IsNormal-IsSegment [] h = tt
IsNormal-IsSegment (s ∷ ss) h = ((h.0.0, h.0.1), IsNormal-IsSegment ss h.1)

module _ (raw : Text) (ss : List Text) (ne : ss ≢ []) (h : All IsNormal ss) where
  -- The function returns the joined components where they are normal.
  pub normalize_of_components :
      components (value raw) ≡ ss
      → is_nil (value raw) ≡ false
      → normalize_virtual_path raw ≡ ok (join ss)
  normalize_of_components e some_text =
      normalize_accepted raw accept ∙ ap ok (ap as_posix parts ∙ as_posix-join ss ne)
    where
      some_join : is_void (join ss) ≡ false
      some_join = join-is_void ss ne h

      form : normalized raw ≡ join ss
      form = lstrip-normpath_normal (value raw) ss e h some_text (void_of_nil (join ss) some_join)

      parts : parts_of (normalized raw) ≡ ss
      parts = ap parts_of form ∙ parts_of-join ss ne (IsNormal-IsSegment ss h)

      accept : refused raw ≡ false
      accept = rw (some_text, parts, form, some_join, normal-any ss h)

value-join :
    (ss : List Text) → All IsNormal ss → strip (join ss) ≡ join ss → value (join ss) ≡ join ss
value-join ss h trimmed = ap strip (replace_backslash_same (join ss) (clean ss h)) ∙ trimmed
  where
    clean : (ts : List Text) → All IsNormal ts → NoBackslash (join ts)
    clean ts k = join-NoBackslash ts (IsSegment-IsClean ts (IsNormal-IsSegment ts k))

-- A path of normal segments that has no blank at its ends is returned as it is.
pub normalize_virtual_path-fixed :
    (p : Text) → IsNormalPath p → strip p ≡ p → normalize_virtual_path p ≡ ok p
normalize_virtual_path-fixed p n trimmed = rw n.spelled (fixed (rw n.spelled at trimmed))
  where
    some_join : is_nil (join n.segments) ≡ false
    some_join = void_of_nil _ (join-is_void n.segments n.nonempty n.normal)

    fixed :
        strip (join n.segments) ≡ join n.segments
        → normalize_virtual_path (join n.segments) ≡ ok (join n.segments)
    fixed t =
        let e = value-join n.segments n.normal t in
        normalize_of_components (join n.segments) n.segments n.nonempty n.normal
          (ap components e ∙ components-join n.segments n.nonempty n.normal) (rw e some_join)
