-- ===== src/Http/Post/Files.antt =====
-- The routes of `do_POST` for files, directories, versions, the trash and uploads.
use personal_secure_node.Prelude.{
  Text, codes, ok, [], ◌∷◌, authorization_error, Result, err, some, none,
}
use personal_secure_node.Json.{text, subscript, int_of}
use personal_secure_node.Http.Post.Uploads.{create_upload_of}
use personal_secure_node.Auth.Admin.{consume_action_token}
use personal_secure_node.Vault.Directories.{create_directory}
use personal_secure_node.Vault.Files.{move_file, delete_file, restore_file}
use personal_secure_node.Vault.Moves.{move_files}
use personal_secure_node.Vault.Versions.{restore_version}
use personal_secure_node.Vault.Purge.{purge_file}
use personal_secure_node.Vault.Uploads.{default_chunk_size, abort_upload}
use personal_secure_node.Vault.Uploads.Commit.{commit_upload}
use personal_secure_node.Http.{
  Library, Request, Draw, Reply, upload, restored_version, moved, directory, moved_files, restored,
  purged, deleted, committed, garbage,
}
use personal_secure_node.Http.Body.{text_of, path_of, read_json, identifier, int_or, moves_of}
use personal_secure_node.Http.Handler.{
  Handler, ◌>>=◌, pure, in_db, in_vault, in_auth, json, authorize,
}

-- `self.headers.get("X-PSN-Action-Token", "")`, which must not be empty
unfoldable pub required_action_token : Request → Result Text
required_action_token rq = elim rq.action_token [
  | none ↦ err authorization_error
  | some t ↦ elim t [ [] ↦ err authorization_error | c ∷ cs ↦ ok (c ∷ cs) ]
]

module _ (lib : Library) (rq : Request) (d : Draw) where
  unfoldable pub post_uploads : Handler Reply
  unfolding create_upload_of
  post_uploads = do
    principal ← authorize lib rq d (codes "drive:write")
    body ← pure (read_json lib rq)
    path_value ← pure (subscript (codes "virtual_path") body)
    size_value ← pure (subscript (codes "expected_size") body)
    expected_size ← pure (int_of lib.python size_value)
    key_value ← pure (subscript (codes "idempotency_key") body)
    ttl_seconds ← pure (int_or lib (codes "ttl_seconds") 3600 body)
    chunk_size ← pure (int_or lib (codes "chunk_size") default_chunk_size body)
    raw ← pure (text_of path_value)
    session ← in_db (
        create_upload_of lib
          (λ (key : Text). record {
            virtual_path = raw;
            expected_size = expected_size;
            idempotency_key = key;
            ttl_seconds = ttl_seconds;
            chunk_size = chunk_size;
            now = d.now;
            session_id = d.fresh_id;
          })
          key_value)
    json 201 (upload session)

  unfoldable pub post_versions_restore : Handler Reply
  post_versions_restore = do
    principal ← authorize lib rq d (codes "drive:write")
    body ← pure (read_json lib rq)
    path_value ← pure (subscript (codes "virtual_path") body)
    id_value ← pure (subscript (codes "version_id") body)
    raw ← pure (text_of path_value)
    id ← pure (identifier lib id_value)
    new_version_id ← in_db (restore_version d.now d.version_id raw id)
    json 200 (restored_version raw new_version_id)

  unfoldable pub post_files_move : Handler Reply
  post_files_move = do
    principal ← authorize lib rq d (codes "drive:write")
    body ← pure (read_json lib rq)
    source_value ← pure (subscript (codes "source") body)
    destination_value ← pure (subscript (codes "destination") body)
    source ← pure (text_of source_value)
    destination ← pure (text_of destination_value)
    done ← in_db (move_file d.now source destination)
    json 200 (moved done)

  unfoldable pub post_directories : Handler Reply
  post_directories = do
    principal ← authorize lib rq d (codes "drive:write")
    body ← pure (read_json lib rq)
    path_value ← pure (subscript (codes "virtual_path") body)
    raw ← pure (text_of path_value)
    path ← in_db (create_directory d.now raw)
    json 201 (directory path)

  unfoldable pub post_files_batch_move : Handler Reply
  post_files_batch_move = do
    principal ← authorize lib rq d (codes "drive:write")
    body ← pure (read_json lib rq)
    moves_value ← pure (subscript (codes "moves") body)
    moves ← pure (moves_of lib moves_value)
    count ← in_db (move_files d.now d.temporary moves)
    json 200 (moved_files count)

  unfoldable pub post_trash_restore : Handler Reply
  post_trash_restore = do
    principal ← authorize lib rq d (codes "drive:write")
    body ← pure (read_json lib rq)
    path_value ← pure (subscript (codes "virtual_path") body)
    path ← pure (path_of path_value)
    done ← in_db (restore_file d.now path)
    json 200 (restored path)

  -- the guards of the two administrator actions: the path that the action token was used for
  unfoldable pub consume_for : Text → Handler Text
  unfolding required_action_token
  consume_for action = do
    principal ← authorize lib rq d (codes "drive:write")
    body ← pure (read_json lib rq)
    path_value ← pure (subscript (codes "virtual_path") body)
    path ← pure (path_of path_value)
    action_token ← pure (required_action_token rq)
    done ← in_auth (
        consume_action_token lib.signatures d.now (lib.token_of action_token) principal.id action
          path)
    pure (ok path)

  unfoldable pub post_trash_purge : Handler Reply
  post_trash_purge = do
    path ← consume_for (codes "file.purge")
    result ← in_vault (purge_file path)
    json 200 (purged result)

  unfoldable pub post_files_delete : Handler Reply
  post_files_delete = do
    path ← consume_for (codes "file.delete")
    done ← in_db (delete_file d.now path)
    json 200 (deleted path)

  unfoldable pub post_upload_commit : Text → Handler Reply
  post_upload_commit session_id = do
    principal ← authorize lib rq d (codes "drive:write")
    result ←
        in_vault
          (commit_upload lib.primitives d.now d.fresh_id d.version_id (lib.id_of (text session_id)))
    json 200 (committed result)

  unfoldable pub post_upload_abort : Text → Handler Reply
  post_upload_abort session_id = do
    principal ← authorize lib rq d (codes "drive:write")
    counts ← in_vault (abort_upload (lib.id_of (text session_id)))
    json 200 (garbage counts)
