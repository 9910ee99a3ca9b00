-- ===== src/Http/Access.antt =====
-- Who changes the vault and the registry: `do_POST`, `do_PUT` and the access tokens.
use personal_secure_node.Prelude.{Text, codes, ◌&&◌, List, [], ◌∷◌, ◌⊎◌, All, text_eq}
use personal_secure_node.Http.{Library, Request, Draw, Server, Reply}
use personal_secure_node.Http.Handler.{Handler}
use personal_secure_node.Http.Chains.{
  IsKept, Keeps, then_handle-Keeps, after_pure, after_in_auth, json-Keeps, pure-Keeps,
}
use personal_secure_node.Http.Post.{
  do_post, post_routes, post_parts, post_console_preflight, post_console_diagnostics,
}
use personal_secure_node.Http.Post.Devices.{
  post_pairings_claim, post_auth_challenges, post_auth_tokens, post_admin_challenges,
  post_admin_tokens,
}
use personal_secure_node.Http.Post.Registered.{
  post_shares, post_shares_revoke, post_plugins_register, post_plugins_status,
  post_entities_sanctions, post_entities_sanctions_revoke,
}
use personal_secure_node.Http.Post.Files.{
  post_uploads, post_versions_restore, post_files_move, post_directories, post_files_batch_move,
  post_trash_restore, consume_for, post_trash_purge, post_files_delete, post_upload_commit,
  post_upload_abort,
}
use personal_secure_node.Http.Put.{do_put, put_parts, put_chunk}
use personal_secure_node.Http.Guards.{
  IsBearer, authorize-Checks, then_handle-Checks, then_handle-Guards, after_rate_limit,
  Keeps-Guards, authorized, either, dispatch-Guards, not_found, handle-Guards, Checks, Guards,
}

module _ (lib : Library) (rq : Request) (d : Draw) where
  post_pairings_claim-Keeps : Keeps (post_pairings_claim lib rq d)
  unfolding post_pairings_claim
  post_pairings_claim-Keeps = after_rate_limit lib rq d _ _ _ _ (λ u. after_pure _ _ (λ body.
      after_pure _ _ (λ c. after_pure _ _ (λ n. after_pure _ _ (λ k. after_pure _ _ (λ name.
        after_pure _ _
          (λ key. after_pure _ _ (λ code. after_in_auth _ _ (λ row. json-Keeps _ _)))))))))

  post_auth_challenges-Keeps : Keeps (post_auth_challenges lib rq d)
  unfolding post_auth_challenges
  post_auth_challenges-Keeps = after_rate_limit lib rq d _ _ _ _ (λ u. after_pure _ _ (λ body.
      after_pure _ _ (λ value. after_pure _ _ (λ id. after_in_auth _ _ (λ row. json-Keeps _ _)))))

  post_auth_tokens-Keeps : Keeps (post_auth_tokens lib rq d)
  unfolding post_auth_tokens
  post_auth_tokens-Keeps = after_rate_limit lib rq d _ _ _ _ (λ u. after_pure _ _ (λ body.
      after_pure _ _ (λ v. after_pure _ _ (λ w. after_pure _ _ (λ x. after_pure _ _ (λ id.
        after_pure _ _ (λ c. after_pure _ _ (λ t. after_in_auth _ _ (λ row. json-Keeps _ _)))))))))

  post_admin_tokens-Keeps : Keeps (post_admin_tokens lib rq d)
  unfolding post_admin_tokens
  post_admin_tokens-Keeps = after_rate_limit lib rq d _ _ _ _ (λ u. after_pure _ _ (λ body.
      after_pure _ _ (λ v. after_pure _ _ (λ w. after_pure _ _ (λ x. after_pure _ _ (λ id.
        after_pure _ _ (λ c. after_pure _ _ (λ t. after_in_auth _ _ (λ row. json-Keeps _ _)))))))))

  post_console_preflight-Keeps : Keeps (post_console_preflight lib rq d)
  unfolding post_console_preflight Keeps Checks
  post_console_preflight-Keeps =
      then_handle-Keeps _ _ (λ s. (authorize-Checks lib rq d _ s).0)
        (λ p. after_rate_limit lib rq d _ _ _ _ (λ u. json-Keeps _ _))

  consume_for-Checks :
      (action : Text) → Checks lib rq d (codes "drive:write") (consume_for lib rq d action)
  unfolding consume_for
  consume_for-Checks action = then_handle-Checks lib rq d _ _ _ (authorize-Checks lib rq d _) (λ p.
      after_pure _ _ (λ body. after_pure _ _ (λ v.
        after_pure _ _ (λ path. after_pure _ _ (λ t. after_in_auth _ _ (λ done. pure-Keeps _))))))

  post_routes-Guards :
      All
        (λ (r : Text × Handler Reply). Guards lib rq d (codes "drive:write") r.1)
        (post_routes lib rq d)
  unfolding post_routes post_console_diagnostics post_shares post_shares_revoke
      post_plugins_register post_plugins_status post_entities_sanctions
      post_entities_sanctions_revoke post_admin_challenges post_uploads post_versions_restore
      post_files_move post_directories post_files_batch_move post_trash_restore post_trash_purge
      post_files_delete
  post_routes-Guards = (
    Keeps-Guards lib rq d _ post_pairings_claim-Keeps,
    (
      Keeps-Guards lib rq d _ post_auth_challenges-Keeps,
      (
        Keeps-Guards lib rq d _ post_auth_tokens-Keeps,
        (
          Keeps-Guards lib rq d _ post_console_preflight-Keeps,
          (
            authorized lib rq d _,
            (
              authorized lib rq d _,
              (
                authorized lib rq d _,
                (
                  authorized lib rq d _,
                  (
                    authorized lib rq d _,
                    (
                      authorized lib rq d _,
                      (
                        authorized lib rq d _,
                        (
                          authorized lib rq d _,
                          (
                            Keeps-Guards lib rq d _ post_admin_tokens-Keeps,
                            (
                              authorized lib rq d _,
                              (
                                authorized lib rq d _,
                                (
                                  authorized lib rq d _,
                                  (
                                    authorized lib rq d _,
                                    (
                                      authorized lib rq d _,
                                      (
                                        authorized lib rq d _,
                                        (
                                          then_handle-Guards lib rq d _ _ _ (consume_for-Checks _),
                                          (
                                            then_handle-Guards lib rq d _ _ _
                                                (consume_for-Checks _),
                                            tt,
                                          ),
                                        ),
                                      ),
                                    ),
                                  ),
                                ),
                              ),
                            ),
                          ),
                        ),
                      ),
                    ),
                  ),
                ),
              ),
            ),
          ),
        ),
      ),
    ),
  )

  post_upload_commit-Guards :
      (session_id : Text)
      → Guards lib rq d (codes "drive:write") (post_upload_commit lib rq d session_id)
  unfolding post_upload_commit
  post_upload_commit-Guards session_id = authorized lib rq d _

  post_upload_abort-Guards :
      (session_id : Text)
      → Guards lib rq d (codes "drive:write") (post_upload_abort lib rq d session_id)
  unfolding post_upload_abort
  post_upload_abort-Guards session_id = authorized lib rq d _

  put_chunk-Guards :
      (session_id ordinal : Text)
      → Guards lib rq d (codes "drive:write") (put_chunk lib rq d session_id ordinal)
  unfolding put_chunk
  put_chunk-Guards session_id ordinal = authorized lib rq d _

  post_parts-Guards :
      (parts : List Text) → Guards lib rq d (codes "drive:write") (post_parts lib rq d parts)
  unfolding post_parts
  post_parts-Guards (a ∷ b ∷ session_id ∷ action ∷ []) =
      either lib rq d (text_eq a (codes "v1") && text_eq b (codes "uploads")) _ _
        (either lib rq d (text_eq action (codes "commit")) _ _
          (post_upload_commit-Guards session_id)
          (either lib rq d (text_eq action (codes "abort")) _ _
            (post_upload_abort-Guards session_id) (not_found lib rq d)))
        (not_found lib rq d)
  post_parts-Guards [] = not_found lib rq d
  post_parts-Guards (a ∷ []) = not_found lib rq d
  post_parts-Guards (a ∷ b ∷ []) = not_found lib rq d
  post_parts-Guards (a ∷ b ∷ c ∷ []) = not_found lib rq d
  post_parts-Guards (a ∷ b ∷ c ∷ e ∷ f ∷ rest) = not_found lib rq d

  -- A POST request that changes anything of the vault or of the registry of artifacts has, in the
  -- state before it, an access token that `verify_token` accepts for "drive:write".
  pub do_post-IsBearer :
      (s : Server) → IsKept s (do_post lib rq d s).1 ⊎ IsBearer lib rq d (codes "drive:write") s
  unfolding do_post
  do_post-IsBearer =
      handle-Guards lib rq d _
        (dispatch-Guards lib rq d rq.path _ _ post_routes-Guards (post_parts-Guards _))

  put_parts-Guards :
      (parts : List Text) → Guards lib rq d (codes "drive:write") (put_parts lib rq d parts)
  unfolding put_parts
  put_parts-Guards (a ∷ b ∷ session_id ∷ c ∷ ordinal ∷ []) =
      either lib rq d
        (text_eq a (codes "v1") && text_eq b (codes "uploads") && text_eq c (codes "chunks")) _ _
        (put_chunk-Guards session_id ordinal) (not_found lib rq d)
  put_parts-Guards [] = not_found lib rq d
  put_parts-Guards (a ∷ []) = not_found lib rq d
  put_parts-Guards (a ∷ b ∷ []) = not_found lib rq d
  put_parts-Guards (a ∷ b ∷ c ∷ []) = not_found lib rq d
  put_parts-Guards (a ∷ b ∷ c ∷ e ∷ []) = not_found lib rq d
  put_parts-Guards (a ∷ b ∷ c ∷ e ∷ f ∷ g ∷ rest) = not_found lib rq d

  -- A PUT request that changes anything of the vault or of the registry of artifacts has, in the state
  -- before it, an access token that `verify_token` accepts for "drive:write".
  pub do_put-IsBearer :
      (s : Server) → IsKept s (do_put lib rq d s).1 ⊎ IsBearer lib rq d (codes "drive:write") s
  unfolding do_put
  do_put-IsBearer = handle-Guards lib rq d _ (put_parts-Guards _)
