-- ===== src/Paths/Twice.antt =====
-- Normalizing twice: `do_POST` of psn_drive/http_api.py passes the normalized path of a request to
-- methods of the vault that normalize it again.
use personal_secure_node.Prelude.{
  Text, ◌≡◌, ◌≢◌, refl, ap, sym, subst, ◌∙◌, false, List, [], ◌∷◌, All, ok, length, arith,
}
use personal_secure_node.Paths.{
  slash, join, is_nil, strip, normalize_virtual_path, replace_backslash,
}
use personal_secure_node.Paths.Split.{NoBackslash, join-NoBackslash}
use personal_secure_node.Paths.Resolve.{IsNormal, components, components-rooted}
use personal_secure_node.Paths.Normal.{
  IsNormalPath, value, normalize_of_components, replace_backslash_same,
  normalize_virtual_path-fixed, IsSegment-IsClean, IsNormal-IsSegment,
}

abbrev blank_start : Text → Text
blank_start p = 32 ∷ p

-- A normal path with no blank at its end is what its rooted spelling normalizes to.
normalize-rooted :
    (ss : List Text)
    → ss ≢ []
    → All IsNormal ss
    → strip (slash ∷ join ss) ≡ slash ∷ join ss
    → normalize_virtual_path (slash ∷ join ss) ≡ ok (join ss)
normalize-rooted ss ne h trimmed =
    let e : value (slash ∷ join ss) ≡ slash ∷ join ss =
      ap strip
        (replace_rooted ∙ ap (λ t. slash ∷ t) (replace_backslash_same (join ss) (clean ss h)))
      ∙ trimmed in
    normalize_of_components (slash ∷ join ss) ss ne h (ap components e ∙ components-rooted ss ne h)
      (ap is_nil e ∙ nonnil)
  where
    clean : (ts : List Text) → All IsNormal ts → NoBackslash (join ts)
    clean ts k = join-NoBackslash ts (IsSegment-IsClean ts (IsNormal-IsSegment ts k))

    replace_rooted : replace_backslash (slash ∷ join ss) ≡ slash ∷ replace_backslash (join ss)
    replace_rooted = unfold replace_backslash in refl

    nonnil : is_nil (slash ∷ join ss) ≡ false
    nonnil = unfold is_nil in refl

-- A blank in front makes no difference.
normalize-blank_start :
    (p : Text) → normalize_virtual_path (blank_start p) ≡ normalize_virtual_path p
unfolding normalize_virtual_path
normalize-blank_start p = refl

-- For every normal path `p` with no blank at its ends such that a blank in front of it is a normal
-- path too: the request "/ p" normalizes to " p", and normalizing that once more gives `p`, another
-- path of the vault. So a normalized path is in general not a fixed point of the function.
pub normalize_twice_differs :
    (p : Text)
    → IsNormalPath p
    → IsNormalPath (blank_start p)
    → strip p ≡ p
    → strip (slash ∷ blank_start p) ≡ slash ∷ blank_start p
    → (normalize_virtual_path (slash ∷ blank_start p) ≡ ok (blank_start p))
      × (normalize_virtual_path (blank_start p) ≡ ok p)
      × (blank_start p ≢ p)
normalize_twice_differs p n b trimmed rooted = (
  subst (λ t. normalize_virtual_path (slash ∷ t) ≡ ok t) (sym b.spelled)
      (normalize-rooted b.segments b.nonempty b.normal
        (subst (λ t. strip (slash ∷ t) ≡ slash ∷ t) b.spelled rooted)),
  normalize-blank_start p ∙ normalize_virtual_path-fixed p n trimmed,
  longer p,
)
  where
    longer : (t : Text) → blank_start t ≢ t
    longer t e = absurd (omega (arith, ap length e))
