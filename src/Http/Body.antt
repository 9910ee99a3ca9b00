-- ===== src/Http/Body.antt =====
-- What the handlers read of the body of a request. Where an argument has a JSON type that the method
-- does not take, the exception is raised here, when the argument is read.
use personal_secure_node.Prelude.{
  ℕ, ◌+◌, ◌*◌, Text, codes, ℤ, pos, to_ℕ, int_ltb, not, ◌||◌, Option, none, some, List, [], ◌∷◌,
  Result, ok, err, raise_if, or_raise, ◌>>=◌, ◌>>◌, value_error, type_error, attribute_error,
  unsupported_argument, file_not_found_in_vault, pairing_error, ltb, length, take,
}
use personal_secure_node.Paths.{normalize_virtual_path}
use personal_secure_node.Json.{
  Json, Fields, null, text, array, object, lookup, items, subscript, is_truthy, int_of, iterate,
}
use personal_secure_node.Registry.Register.{is_bindable}
use personal_secure_node.Http.{Library, Request}

abbrev pub max_json_body : ℕ
max_json_body = 1024 * 1024

-- a value that the method takes for a text, and calls a method of
unfoldable pub text_of : Json → Result Text
text_of (text t) = ok t
text_of value = err attribute_error

-- `normalize_virtual_path(body[key])`
unfoldable pub path_of : Json → Result Text
path_of value = do raw ← text_of value; normalize_virtual_path raw

-- a public key: `b64decode` stands under an `except Exception`
unfoldable pub key_of : Json → Result Text
key_of (text t) = ok t
key_of value = err pairing_error

-- a signature or a key, of which `b64decode` or `len` raises a TypeError
unfoldable pub sized_text : Json → Result Text
sized_text (text t) = ok t
sized_text value = err type_error

-- a value that is only compared with texts
abbrev pub text_or_blank : Json → Text
text_or_blank (text t) = t
text_or_blank value = []

unfoldable pub object_of : Json → Result Fields
object_of (object fs) = ok fs
object_of value = err value_error

-- `item["source"]`
item_field : Text → Json → Result Text
item_field key (object fs) = do value ← subscript key fs; text_of value
item_field key value = err type_error

moves_of_items : List Json → Result (List (Text × Text))
unfolding item_field
moves_of_items [] = ok []
moves_of_items (v ∷ vs) = do
  source ← item_field (codes "source") v
  destination ← item_field (codes "destination") v
  rest ← moves_of_items vs
  ok ((source, destination) ∷ rest)

module _ (lib : Library) where
  -- `_read_json`
  unfoldable pub read_json : Request → Result Fields
  unfolding object_of
  read_json rq = do
    n ←
        or_raise (lib.int_of_text (elim rq.content_length [ none ↦ codes "0" | some t ↦ t ]))
          value_error
    raise_if (int_ltb n 1 || not (int_ltb n (max_json_body + 1))) value_error
    value ← or_raise (lib.json_loads (take (to_ℕ n) rq.body)) value_error
    object_of value

  -- a value that a statement takes for a parameter
  unfoldable pub identifier : Json → Result ℕ
  identifier value = do
    raise_if (not (is_bindable value)) unsupported_argument
    ok (lib.id_of value)

  -- the same for the identifier of an artifact or an entity, which a manifest chooses; NULL equals none
  unfoldable pub name_of : Json → Result Text
  name_of (text t) = ok t
  name_of null = err file_not_found_in_vault
  name_of value = do
    raise_if (not (is_bindable value)) unsupported_argument
    ok (lib.sql_text value)

  -- `int(body.get(key, default))`
  unfoldable pub int_or : Text → ℕ → Fields → Result ℤ
  int_or key default fs = elim (lookup key fs) [
    | none ↦ ok (pos default)
    | some v ↦ int_of lib.python v
  ]

  -- `int(max_downloads)` unless it is None
  unfoldable pub int_if : Option Json → Result (Option ℤ)
  int_if none = ok none
  int_if (some null) = ok none
  int_if (some v) = do i ← int_of lib.python v; ok (some i)

  -- `body["moves"]`, with the test of its length that `move_files` starts with
  unfoldable pub moves_of : Json → Result (List (Text × Text))
  unfolding moves_of_items
  moves_of (array vs) = do
    raise_if (ltb 100 (length (items vs))) value_error
    moves_of_items (items vs)
  moves_of value = do
    raise_if (not (is_truthy lib.python value)) value_error
    vs ← iterate value
    raise_if (ltb 100 (length vs)) value_error
    err type_error
