-- ===== src/Paths/Tests.antt =====
-- Runs of `normalize_virtual_path` that can be followed in the source.
use personal_secure_node.Prelude.{
  Text, codes, ◌≡◌, ◌≢◌, refl, [], ◌∷◌, ok, err, invalid_virtual_path, text_eq, select, any, arith,
}
use personal_secure_node.Paths.{normalize_virtual_path, strip, join, slash, is_void, is_nil}
use personal_secure_node.Paths.Normal.{
  IsNormalPath, normalize_virtual_path-IsNormalPath, normalize_virtual_path-fixed,
}
use personal_secure_node.Paths.Twice.{normalize_twice_differs}

normalize_mixed :
    normalize_virtual_path (codes "  \\photos\\.//2026/x/../a b.jpg ")
    ≡ ok (codes "photos/2026/a b.jpg")
unfolding normalize_virtual_path select any text_eq
normalize_mixed = refl

normalize_escape : normalize_virtual_path (codes "a/../../b") ≡ err invalid_virtual_path
unfolding normalize_virtual_path select any text_eq
normalize_escape = refl

normalize_absolute : normalize_virtual_path (codes "//../a/") ≡ ok (codes "a")
unfolding normalize_virtual_path select any text_eq
normalize_absolute = refl

abbrev mixed : Text
mixed = codes "photos/2026/a b.jpg"

normalize_virtual_path-IsNormalPath_example : IsNormalPath mixed
normalize_virtual_path-IsNormalPath_example =
    normalize_virtual_path-IsNormalPath (codes "  \\photos\\.//2026/x/../a b.jpg ") mixed
      normalize_mixed

one_segment : IsNormalPath (codes "a")
unfolding is_void is_nil text_eq
one_segment = record {
  segments = codes "a" ∷ [];
  spelled = unfold join in refl;
  nonempty = λ e. ground (arith, e);
  normal = ground arith;
}

spaced_segment : IsNormalPath (codes " a")
unfolding is_void is_nil text_eq
spaced_segment = record {
  segments = codes " a" ∷ [];
  spelled = unfold join in refl;
  nonempty = λ e. ground (arith, e);
  normal = ground arith;
}

two_segments : IsNormalPath (codes "a/b")
unfolding is_void is_nil text_eq
two_segments = record {
  segments = codes "a" ∷ codes "b" ∷ [];
  spelled = unfold join in refl;
  nonempty = λ e. ground (arith, e);
  normal = ground arith;
}

trimmed : strip (codes "a/b") ≡ codes "a/b"
unfolding strip
trimmed = refl

normalize_virtual_path-fixed_example : normalize_virtual_path (codes "a/b") ≡ ok (codes "a/b")
normalize_virtual_path-fixed_example =
    normalize_virtual_path-fixed (codes "a/b") two_segments trimmed

trimmed_a : strip (codes "a") ≡ codes "a"
unfolding strip
trimmed_a = refl

trimmed_rooted : strip (slash ∷ codes " a") ≡ slash ∷ codes " a"
unfolding strip
trimmed_rooted = refl

normalize_twice_differs_example :
    (normalize_virtual_path (codes "/ a") ≡ ok (codes " a"))
    × (normalize_virtual_path (codes " a") ≡ ok (codes "a"))
    × (codes " a" ≢ codes "a")
normalize_twice_differs_example =
    normalize_twice_differs (codes "a") one_segment spaced_segment trimmed_a trimmed_rooted
