-- ===== src/Http/Put.antt =====
-- `do_PUT`: a chunk of an upload.
use personal_secure_node.Prelude.{
  ◌+◌, Text, codes, to_ℕ, int_ltb, not, ◌&&◌, ◌||◌, some, none, List, [], ◌∷◌, text_eq, value_error,
  or_raise, raise_if, if◌then◌else◌, take,
}
use personal_secure_node.Paths.{split}
use personal_secure_node.Json.{text}
use personal_secure_node.Vault.Uploads.{default_chunk_size, upload_chunk}
use personal_secure_node.Http.{Library, Request, Draw, Server, Reply, chunk, route_not_found}
use personal_secure_node.Http.Handler.{
  Handler, ◌>>=◌, ◌>>◌, pure, in_vault, json, rate_limit, authorize, handle,
}
use personal_secure_node.Http.Post.{strip_slashes}

module _ (lib : Library) (rq : Request) (d : Draw) where
  unfoldable pub put_chunk : Text → Text → Handler Reply
  put_chunk session_id ordinal_text = do
    principal ← authorize lib rq d (codes "drive:write")
    rate_limit lib rq d (codes "chunk") 300 60
    ordinal ← pure (or_raise (lib.int_of_text ordinal_text) value_error)
    length ← pure (
        or_raise (lib.int_of_text (elim rq.content_length [ none ↦ codes "-1" | some t ↦ t ]))
          value_error)
    pure (raise_if (int_ltb length 0 || not (int_ltb length (default_chunk_size + 1))) value_error)
    reply ← in_vault (
        upload_chunk lib.primitives d.now d.nonce (lib.id_of (text session_id)) ordinal
          (take (to_ℕ length) rq.body))
    json 200 (chunk reply)

  -- `parts` has five parts, of which the first two and the fourth are fixed
  unfoldable pub put_parts : List Text → Handler Reply
  unfolding put_chunk
  put_parts (a ∷ b ∷ session_id ∷ c ∷ ordinal ∷ []) =
      if text_eq a (codes "v1") && text_eq b (codes "uploads") && text_eq c (codes "chunks")
      then put_chunk session_id ordinal
      else json 404 route_not_found
  put_parts parts = json 404 route_not_found

  unfoldable pub do_put : Server → Reply × Server
  do_put = handle (put_parts (split (strip_slashes rq.path)))
