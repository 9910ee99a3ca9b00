-- ===== src/Json.antt =====
-- The values that `json.loads` returns, and what the code does with a value whose type it does not
-- know: truth tests, `str`, `int`, `.get` and subscripts.
use personal_secure_node.Prelude.{
  ℕ, Text, ℤ, pos, Bool, true, false, not, Option, none, some, List, [], ◌∷◌, Result, ok, err,
  or_raise, attribute_error, type_error, key_error, ◌==◌, if◌then◌else◌, text_eq,
}

-- A number with a fraction is only passed on: it is a number that stands for it. A dictionary has
-- its keys in their order, each once.
mutual
  pub data Json : Type 0 where
    null : Json
    boolean : Bool → Json
    integer : ℤ → Json
    real : ℕ → Json
    text : Text → Json
    array : Items → Json
    object : Fields → Json

  pub data Items : Type 0 where
    nil : Items
    cons : Json → Items → Items

  pub data Fields : Type 0 where
    end : Fields
    field : Text → Json → Fields → Fields

-- What Python's `str` and `int` return for a value that is not a text, and not an integer; `int` may
-- raise ValueError or TypeError. `is_zero` is the test of a number with a fraction.
pub record Python : Type 0 where
  pub str : Json → Text
  pub int : Json → Result ℤ
  pub is_zero : ℕ → Bool

unfoldable pub lookup : Text → Fields → Option Json
lookup key end = none
lookup key (field k v fs) = if text_eq key k then some v else lookup key fs

unfoldable pub items : Items → List Json
items nil = []
items (cons v vs) = v ∷ items vs

unfoldable pub keys : Fields → List Json
keys end = []
keys (field k v fs) = text k ∷ keys fs

-- a text's characters, one by one
unfoldable pub characters : Text → List Json
characters [] = []
characters (c ∷ cs) = text (c ∷ []) ∷ characters cs

-- the fields of a dictionary, for `value.get(…)`
unfoldable pub fields_of : Json → Result Fields
fields_of (object fs) = ok fs
fields_of value = err attribute_error

-- `body[key]`
unfoldable pub subscript : Text → Fields → Result Json
subscript key fs = or_raise (lookup key fs) key_error

-- `for item in value`
unfoldable pub iterate : Json → Result (List Json)
unfolding items keys characters
iterate (array vs) = ok (items vs)
iterate (object fs) = ok (keys fs)
iterate (text t) = ok (characters t)
iterate value = err type_error

module _ (py : Python) where
  is_empty : Text → Bool
  is_empty [] = true
  is_empty (c ∷ cs) = false

  -- `if value`
  unfoldable pub is_truthy : Json → Bool
  unfolding is_empty
  is_truthy null = false
  is_truthy (boolean b) = b
  is_truthy (integer (pos n)) = not (n == 0)
  is_truthy (integer i) = true
  is_truthy (real r) = not (py.is_zero r)
  is_truthy (text t) = not (is_empty t)
  is_truthy (array nil) = false
  is_truthy (array vs) = true
  is_truthy (object end) = false
  is_truthy (object fs) = true

  -- `str(value)`
  unfoldable pub str_of : Json → Text
  str_of (text t) = t
  str_of value = py.str value

  -- `int(value)`
  unfoldable pub int_of : Json → Result ℤ
  int_of (integer i) = ok i
  int_of value = py.int value
