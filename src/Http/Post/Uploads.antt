-- ===== src/Http/Post/Uploads.antt =====
-- `create_upload` as `do_POST` calls it, where the idempotency key may be any JSON value.
use personal_secure_node.Prelude.{
  Text, List, Result, err, not, map, int_ltb, raise_if, ◌>>=◌, ◌>>◌, value_error, type_error,
  unsupported_argument, [],
}
use personal_secure_node.Paths.{normalize_virtual_path}
use personal_secure_node.Json.{Json, text, array, object, items, iterate, is_truthy}
use personal_secure_node.Schema.{Db, UploadSession, UploadChunk}
use personal_secure_node.Vault.Uploads.{UploadCall, check_upload, create_upload}
use personal_secure_node.Http.{Library}

module _ (lib : Library) where
  -- `create_upload` on any JSON value for the idempotency key, with its tests in their order: a list or
  -- an object has a length, and is refused by the SELECT.
  unfoldable pub create_upload_of :
      (Text → UploadCall) → Json → Db → Result ((UploadSession × List UploadChunk) × Db)
  create_upload_of call (text key) db = create_upload (call key) db
  create_upload_of call (array vs) db = do
    path ← check_upload (call (map (λ v. 0) (items vs)))
    err unsupported_argument
  create_upload_of call (object fs) db = do
    names ← iterate (object fs)
    path ← check_upload (call (map (λ v. 0) names))
    err unsupported_argument
  create_upload_of call value db = do
    path ← normalize_virtual_path (call []).virtual_path
    raise_if (int_ltb (call []).expected_size 0) value_error
    raise_if (not (is_truthy lib.python value)) value_error
    err type_error
