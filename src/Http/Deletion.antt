-- ===== src/Http/Deletion.antt =====
-- The two administrator actions of `do_POST`: deleting a file and purging it from the trash.
use personal_secure_node.Prelude.{
  ℕ, ◌<◌, Text, codes, Option, none, some, [], ◌∷◌, Result, ok, err, ◌≡◌, refl, sym, ap, ◌∙◌,
  authorization_error, ok-injective,
}
use personal_secure_node.Json.{subscript}
use personal_secure_node.Auth.{AuthDb, Device, ActionToken}
use personal_secure_node.Auth.Admin.{action_token_of, use_action_token, consume_action_token}
use personal_secure_node.Auth.Safety.{consume_action_token_once, consume_action_token-marks}
use personal_secure_node.Auth.Seen.{action_token_of-verify_token}
use personal_secure_node.Vault.{Vault, transact}
use personal_secure_node.Vault.Files.{delete_file}
use personal_secure_node.Vault.Purge.{purge_file}
use personal_secure_node.Http.{Library, Request, Draw, Server, Reply, deleted, purged}
use personal_secure_node.Http.Body.{read_json, path_of}
use personal_secure_node.Http.Handler.{pure, in_db, in_vault, in_auth, authorize}
use personal_secure_node.Http.Post.Files.{
  required_action_token, consume_for, post_trash_purge, post_files_delete,
}
use personal_secure_node.Http.Chains.{
  then_handle-ok, pure-ok, in_auth-ok, in_vault-ok, in_db-ok, json-ok, IsKept,
}
use personal_secure_node.Http.Guards.{IsLoggedIn, authorize-IsLoggedIn, authorize-IsBearer}

required_action_token-ok :
    (rq : Request) (token : Text)
    → required_action_token rq ≡ ok token
    → rq.action_token ≡ some token
unfolding required_action_token
required_action_token-ok rq token h = go rq.action_token refl h
  where
    go :
        (o : Option Text)
        → rq.action_token ≡ o
        → ◌≡◌ {A = Result Text}
            (elim o [
              | none ↦ err authorization_error
              | some t ↦ elim t [ [] ↦ err authorization_error | c ∷ cs ↦ ok (c ∷ cs) ]
            ])
            (ok token)
        → rq.action_token ≡ some token
    go none e k = cc
    go (some []) e k = cc
    go (some (c ∷ cs)) e k = e ∙ ap (λ t. some t) (ok-injective k)

in_vault-others :
    {A : Type 0} (f : Vault → Result A × Vault) (s s' : Server) (a : A)
    → in_vault f s ≡ (ok a, s')
    → (s'.auth ≡ s.auth) × (s'.registry ≡ s.registry)
unfolding in_vault
in_vault-others f s s' a h = ((λ i. (sym h i).1.auth), (λ i. (sym h i).1.registry))

module _ (lib : Library) (rq : Request) (d : Draw) where
  -- The guards of an administrator action were passed. The request has an access token, which
  -- `verify_token` accepts for "drive:write" in the state before, of some device, and an action token;
  -- the lookup of this action token, for this device, the action and the path, finds a row in the
  -- state before, which is unused and has time left. In the state after, exactly this row is marked as
  -- used in the tables that the verification left; the vault and the registry are as before; and the
  -- action token is refused for the same device, action and path, whenever it is tried.
  abbrev pub IsConsumed : Text → Text → Server → Server → Type 0
  IsConsumed action path s t =
      (device : Device) × (auth : AuthDb) × (token : Text) × (row : ActionToken) × IsLoggedIn lib rq
        d (codes "drive:write") s.auth device auth
      × (rq.action_token ≡ some token)
      × (action_token_of lib.signatures (lib.token_of token) device.id action path s.auth
          ≡ some row)
      × (row.device_id ≡ device.id)
      × (row.action ≡ action)
      × (row.resource ≡ path)
      × (row.used_at ≡ none)
      × (d.now < row.expires_at)
      × (t.auth ≡ use_action_token d.now row.id auth)
      × IsKept s t
      × ((later : ℕ)
          → consume_action_token lib.signatures later (lib.token_of token) device.id action path
              t.auth
            ≡ err authorization_error)

  IsConsumed-IsKept : (action path : Text) (s t : Server) → IsConsumed action path s t → IsKept s t
  IsConsumed-IsKept action path s t (_, _, _, _, _, _, _, _, _, _, _, _, _, kept, _) = kept

  consume_for-IsConsumed :
      (action path : Text) (s t : Server)
      → consume_for lib rq d action s ≡ (ok path, t)
      → IsConsumed action path s t
  unfolding consume_for
  consume_for-IsConsumed action path s t h =
      let (principal, s1, authorized, h1) =
        then_handle-ok (authorize lib rq d (codes "drive:write")) _ s t path h in
      let (body, s2, read, h2) = then_handle-ok (pure (read_json lib rq)) _ s1 t path h1 in
      let (value, s3, found, h3) =
        then_handle-ok (pure (subscript (codes "virtual_path") body)) _ s2 t path h2 in
      let (p, s4, normal, h4) = then_handle-ok (pure (path_of value)) _ s3 t path h3 in
      let (token, s5, present, h5) =
        then_handle-ok (pure (required_action_token rq)) _ s4 t path h4 in
      let (done, s6, consumed, h6) =
        then_handle-ok
          (in_auth
            (consume_action_token lib.signatures d.now (lib.token_of token) principal.id action p))
          _ s5 t path h5 in
      consumed_by principal token p s1 s5 s6 authorized
        (pure-ok (required_action_token rq) s4 s5 token present).0
        ((pure-ok (read_json lib rq) s1 s2 body read).1
          ∙ ((pure-ok (subscript (codes "virtual_path") body) s2 s3 value found).1
              ∙ ((pure-ok (path_of value) s3 s4 p normal).1
                  ∙ (pure-ok (required_action_token rq) s4 s5 token present).1)))
        consumed (ok-injective (pure-ok (ok p) s6 t path h6).0) (pure-ok (ok p) s6 t path h6).1
    where
      consumed_by :
          (principal : Device) (token p : Text) (s1 s5 s6 : Server)
          → authorize lib rq d (codes "drive:write") s ≡ (ok principal, s1)
          → required_action_token rq ≡ ok token
          → s1 ≡ s5
          → in_auth
              (consume_action_token lib.signatures d.now (lib.token_of token) principal.id action p)
              s5
            ≡ (ok tt, s6)
          → p ≡ path
          → s6 ≡ t
          → IsConsumed action path s t
      consumed_by principal token p s1 s5 s6 authorized present same consumed is_path last =
          let logged_in =
            authorize-IsLoggedIn lib rq d (codes "drive:write") s s1 principal authorized in
          let kept =
            (authorize-IsBearer lib rq d (codes "drive:write") s s1 principal authorized).1 in
          let (db, holds, after) =
            in_auth-ok
              (consume_action_token lib.signatures d.now (lib.token_of token) principal.id action p)
              s5 s6 tt consumed in
          let at_login : consume_action_token lib.signatures d.now (lib.token_of token) principal.id
                action path s1.auth
              ≡ ok (tt, db) =
            cc (holds, is_path, ap (λ (u : Server). u.auth) same) in
          let ((row, found, own, act, res, unused, in_time), active, once) =
            consume_action_token_once lib.signatures d.now (lib.token_of token) principal.id action
              path s1.auth db at_login in
          let marked =
            consume_action_token-marks lib.signatures d.now (lib.token_of token) principal.id action
              path s1.auth db row found at_login in
          let whole : record s1 { auth = db } ≡ t =
            ap (λ (u : Server). record u { auth = db }) same ∙ (after ∙ last) in
          let (access, scopes, spelt, verified) = logged_in in
          (
            principal,
            s1.auth,
            token,
            row,
            logged_in,
            required_action_token-ok rq token present,
            sym (
                  action_token_of-verify_token lib.signatures d.now (lib.token_of access)
                    (codes "drive:write") (principal, scopes) s.auth s1.auth (lib.token_of token)
                    principal.id action path verified)
                ∙ found,
            own,
            act,
            res,
            unused,
            in_time,
            ap (λ (u : Server). u.auth) (sym whole) ∙ marked,
            (
              ap (λ (u : Server). u.vault) (sym whole) ∙ kept.0,
              ap (λ (u : Server). u.registry) (sym whole) ∙ kept.1,
            ),
            λ later. cc (once later, ap (λ (u : Server). u.auth) whole),
          )

  -- A request that POST /v1/files/delete answers was made by a device that is logged in for
  -- "drive:write". It presents an action token, of which the lookup in the state before finds a row of
  -- this device for deleting exactly this path, unused and in time. This row is marked as used and
  -- nothing else changes in the tables of devices after the login; every further use of the token for
  -- it is refused. What the request changes of the vault is what `delete_file` does to the path, and
  -- the registry is left alone.
  pub post_files_delete-IsConsumed :
      (s s' : Server) (reply : Reply)
      → post_files_delete lib rq d s ≡ (ok reply, s')
      → (path : Text) × (t : Server) × IsConsumed (codes "file.delete") path s t
        × (delete_file d.now path s.vault.db ≡ ok (tt, s'.vault.db))
        × (s'.auth ≡ t.auth)
        × (s'.registry ≡ s.registry)
        × (reply ≡ record { status_code = 200; content = deleted path })
  unfolding post_files_delete
  post_files_delete-IsConsumed s s' reply h =
      let (path, t, passed, h1) =
        then_handle-ok (consume_for lib rq d (codes "file.delete")) _ s s' reply h in
      let guarded = consume_for-IsConsumed (codes "file.delete") path s t passed in
      let (done, t1, ran, h2) = then_handle-ok (in_db (delete_file d.now path)) _ t s' reply h1 in
      let (answered, same) = json-ok 200 (deleted path) t1 s' reply h2 in
      let (auth, registry) = in_vault-others (transact (delete_file d.now path)) t t1 done ran in
      let kept = IsConsumed-IsKept _ path s t guarded in
      (
        path,
        t,
        guarded,
        ap (λ (v : Vault). delete_file d.now path v.db) (sym kept.0)
            ∙ (in_db-ok (delete_file d.now path) t t1 done ran
                ∙ ap (λ (u : Server). ok (tt, u.vault.db)) same),
        ap (λ (u : Server). u.auth) (sym same) ∙ auth,
        ap (λ (u : Server). u.registry) (sym same) ∙ (registry ∙ kept.1),
        answered,
      )

  -- A request that POST /v1/trash/purge answers was made by a device that is logged in for
  -- "drive:write". It presents an action token, of which the lookup in the state before finds a row of
  -- this device for purging exactly this path, unused and in time. This row is marked as used and
  -- nothing else changes in the tables of devices after the login; every further use of the token for
  -- it is refused. The vault becomes what `purge_file` of the path makes of it, and the registry is
  -- left alone.
  pub post_trash_purge-IsConsumed :
      (s s' : Server) (reply : Reply)
      → post_trash_purge lib rq d s ≡ (ok reply, s')
      → (path : Text) × (t : Server) × (result : Text × (ℕ × ℕ)) × IsConsumed
          (codes "file.purge")
          path
          s
          t
        × (purge_file path s.vault ≡ (ok result, s'.vault))
        × (s'.auth ≡ t.auth)
        × (s'.registry ≡ s.registry)
        × (reply ≡ record { status_code = 200; content = purged result })
  unfolding post_trash_purge
  post_trash_purge-IsConsumed s s' reply h =
      let (path, t, passed, h1) =
        then_handle-ok (consume_for lib rq d (codes "file.purge")) _ s s' reply h in
      let guarded = consume_for-IsConsumed (codes "file.purge") path s t passed in
      let (result, t1, ran, h2) = then_handle-ok (in_vault (purge_file path)) _ t s' reply h1 in
      let (answered, same) = json-ok 200 (purged result) t1 s' reply h2 in
      let (auth, registry) = in_vault-others (purge_file path) t t1 result ran in
      let kept = IsConsumed-IsKept _ path s t guarded in
      (
        path,
        t,
        result,
        guarded,
        ap (purge_file path) (sym kept.0)
            ∙ (in_vault-ok (purge_file path) t t1 result ran
                ∙ ap (λ (u : Server). (ok result, u.vault)) same),
        ap (λ (u : Server). u.auth) (sym same) ∙ auth,
        ap (λ (u : Server). u.registry) (sym same) ∙ (registry ∙ kept.1),
        answered,
      )
