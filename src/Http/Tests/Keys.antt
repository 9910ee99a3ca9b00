-- ===== src/Http/Tests/Keys.antt =====
-- Idempotency keys that are no text, and a size that SQLite does not take.
use personal_secure_node.Prelude.{
  ◌≡◌, ℕ, Text, codes, pos, err, value_error, type_error, unsupported_argument, overflow_error,
  refl, text_eq, any, select, find_first,
}
use personal_secure_node.Paths.{normalize_virtual_path}
use personal_secure_node.Json.{text, integer, array, cons, nil, items, is_truthy}
use personal_secure_node.Schema.{empty_db}
use personal_secure_node.Vault.Uploads.{UploadCall, create_upload, check_upload}
use personal_secure_node.Http.Post.Uploads.{create_upload_of}
use personal_secure_node.Http.Tests.{toy}

abbrev upload_of_size : ℕ → Text → UploadCall
upload_of_size size key = record {
  virtual_path = codes "a";
  expected_size = pos size;
  idempotency_key = key;
  ttl_seconds = pos 60;
  chunk_size = pos 1;
  now = 100;
  session_id = 1;
}

list_key :
    create_upload_of toy (upload_of_size 1) (array (cons (integer (pos 1)) nil)) empty_db
    ≡ err unsupported_argument
unfolding create_upload_of check_upload normalize_virtual_path select any text_eq items
list_key = refl

empty_key : create_upload_of toy (upload_of_size 1) (array nil) empty_db ≡ err value_error
unfolding create_upload_of check_upload normalize_virtual_path select any text_eq items
empty_key = refl

integer_key : create_upload_of toy (upload_of_size 1) (integer (pos 7)) empty_db ≡ err type_error
unfolding create_upload_of normalize_virtual_path select any text_eq is_truthy
integer_key = refl

large_size :
    create_upload_of toy (upload_of_size 9223372036854775808) (text (codes "k")) empty_db
    ≡ err overflow_error
unfolding create_upload_of create_upload check_upload normalize_virtual_path select any text_eq
    find_first
large_size = refl
