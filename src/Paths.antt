-- ===== src/Paths.antt =====
-- `normalize_virtual_path` of psn_drive/vault.py, with the parts of Python's `str`, `posixpath` and
-- `PurePosixPath` that it calls. A text is the list of its code points.
pub mod Split
pub mod Resolve
pub mod Normal
pub mod Twice
mod Tests
use mathlib.Core.List.{reverse}
use personal_secure_node.Prelude.{
  ℕ, Text, Bool, true, false, not, ◌&&◌, ◌||◌, List, [], ◌∷◌, ◌++◌, map, Result, ok, err,
  invalid_virtual_path, text_eq, leb, ◌==◌, if◌then◌else◌, select, any, starts_with,
}

abbrev pub slash : ℕ
slash = 47

abbrev pub backslash : ℕ
backslash = 92

abbrev pub dot : Text
dot = 46 ∷ []

abbrev pub dotdot : Text
dotdot = 46 ∷ 46 ∷ []

-- `str.isspace` of one character, as `str.strip` uses it
pub is_space : ℕ → Bool
is_space c =
    (leb 9 c && leb c 13)
    || (leb 28 c && leb c 32)
    || c == 133
    || c == 160
    || c == 5760
    || (leb 8192 c && leb c 8202)
    || c == 8232
    || c == 8233
    || c == 8239
    || c == 8287
    || c == 12288

unfoldable pub lstrip : (ℕ → Bool) → Text → Text
lstrip p [] = []
lstrip p (c ∷ cs) = let rest = lstrip p cs in if p c then rest else c ∷ cs

-- `value.strip()`
unfoldable pub strip : Text → Text
unfolding lstrip is_space
strip t = reverse (lstrip is_space (reverse (lstrip is_space t)))

-- `value.replace("\\", "/")`
pub replace_backslash : Text → Text
replace_backslash = map (λ c. if c == backslash then slash else c)

cons_head : ℕ → List Text → List Text
cons_head c [] = (c ∷ []) ∷ []
cons_head c (s ∷ ss) = (c ∷ s) ∷ ss

-- `path.split("/")`
unfoldable pub split : Text → List Text
unfolding cons_head
split [] = [] ∷ []
split (c ∷ cs) = let rest = split cs in if c == slash then [] ∷ rest else cons_head c rest

-- `"/".join(parts)`
unfoldable pub join : List Text → Text
join [] = []
join (s ∷ []) = s
join (s ∷ t ∷ ts) = s ++ (slash ∷ join (t ∷ ts))

pub is_nil : Text → Bool
is_nil [] = true
is_nil (c ∷ cs) = false

-- `comp in ("", ".")`
pub is_void : Text → Bool
unfolding is_nil
is_void s = is_nil s || text_eq s dot

-- `sep * initial_slashes` of `posixpath.normpath`: one or two slashes are kept, three or more are one
pub initial_slashes : Text → Text
unfolding starts_with
initial_slashes t =
    if starts_with (slash ∷ slash ∷ []) t && not (starts_with (slash ∷ slash ∷ slash ∷ []) t)
    then slash ∷ slash ∷ []
    else if starts_with (slash ∷ []) t
    then slash ∷ []
    else []

-- `new_comps and new_comps[-1] == ".."`, where the stack holds the last component first
top_is_dotdot : List Text → Bool
top_is_dotdot [] = false
top_is_dotdot (s ∷ ss) = text_eq s dotdot

empty_stack : List Text → Bool
empty_stack [] = true
empty_stack (s ∷ ss) = false

pop : List Text → List Text
pop [] = []
pop (s ∷ ss) = ss

-- one round of the loop over `comps`
pub push_component : Bool → List Text → Text → List Text
unfolding is_void top_is_dotdot empty_stack pop
push_component absolute stack comp =
    if is_void comp
    then stack
    else if not (text_eq comp dotdot) || (not absolute && empty_stack stack) || top_is_dotdot stack
    then comp ∷ stack
    else pop stack

unfoldable pub resolve : Bool → List Text → List Text → List Text
unfolding push_component
resolve absolute stack [] = stack
resolve absolute stack (c ∷ cs) = resolve absolute (push_component absolute stack c) cs

-- `posixpath.normpath(path)`
pub normpath : Text → Text
unfolding is_nil initial_slashes resolve split join
normpath t =
    let root = initial_slashes t in
    let path = root ++ join (reverse (resolve (not (is_nil root)) [] (split t))) in
    if is_nil t || is_nil path then dot else path

-- `PurePosixPath(path).parts` of a path with no leading slash
pub parts_of : Text → List Text
unfolding is_void split
parts_of t = select (λ s. not (is_void s)) (split t)

-- `PurePosixPath(path).as_posix()` by the parts
pub as_posix : List Text → Text
unfolding join
as_posix [] = dot
as_posix (s ∷ ss) = join (s ∷ ss)

unfoldable pub normalize_virtual_path : Text → Result Text
unfolding normpath parts_of as_posix strip replace_backslash lstrip is_void is_nil
normalize_virtual_path raw =
    let value = strip (replace_backslash raw) in
    let normalized = lstrip (λ c. c == slash) (normpath value) in
    let parts = parts_of normalized in
    if is_nil value || is_void normalized || any (λ s. text_eq s dotdot) parts
    then err invalid_virtual_path
    else ok (as_posix parts)
