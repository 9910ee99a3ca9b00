-- ===== src/Http/Disclosure.antt =====
-- What `do_GET` answers with, and to whom.
use personal_secure_node.Prelude.{
  ℕ, Text, codes, Bool, true, false, List, [], ◌∷◌, Result, ok, err, ◌≡◌, refl, sym, ap, subst, ◌∙◌,
  ◌⊎◌, inl, inr, All, text_eq, starts_with, if◌then◌else◌,
}
use personal_secure_node.Auth.{Device}
use personal_secure_node.Schema.{Db, ShareLink, Version, VersionChunk}
use personal_secure_node.Vault.Shares.{shared_download_manifest}
use personal_secure_node.Http.{
  Library, Request, Draw, Server, Reply, Content, page, route_not_found, health, failure,
}
use personal_secure_node.Http.Handler.{
  Handler, ◌>>=◌, pure, in_db, json, rate_limit, authorize, dispatch, handle, status_of,
}
use personal_secure_node.Http.Chains.{then_handle-ok, pure-ok, in_db-ok, json-ok}
use personal_secure_node.Http.Guards.{IsBearer, authorize-IsBearer}
use personal_secure_node.Http.Get.{
  do_get, get_routes, get_prefixed, get_static, get_health, get_status, get_console, get_files,
  get_browse, get_trash, get_shares, get_plugins, get_versions, get_download, get_shared,
  get_upload_session, last_part,
}

-- The content is a page, the health, an unknown route or a failure, and has nothing of the vault, of the devices or of the registry.
unfoldable pub is_plain : Content → Bool
is_plain page = true
is_plain route_not_found = true
is_plain health = true
is_plain (failure e) = true
is_plain content = false

-- The request has a link's token, which the method that serves links accepts.
abbrev pub IsLinked : Library → Request → Draw → Server → Type 0
IsLinked lib rq d s =
    (token : Text) × (found : ((ShareLink × Version) × List VersionChunk) × Db) × (last_part lib rq
        d (codes "/s/")
      ≡ ok token)
    × (shared_download_manifest lib.signatures.hash d.now (lib.token_of token) s.vault.db
        ≡ ok found)

-- The request has what entitles it to an answer: a token to read or to write, or a link's.
abbrev pub IsEntitled : Library → Request → Draw → Server → Type 0
IsEntitled lib rq d s =
    IsBearer lib rq d (codes "drive:read") s
    ⊎ (IsBearer lib rq d (codes "drive:write") s ⊎ IsLinked lib rq d s)

json-is_plain :
    (code : ℕ) (content : Content) (s s' : Server) (reply : Reply)
    → is_plain content ≡ true
    → json code content s ≡ (ok reply, s')
    → is_plain reply.content ≡ true
json-is_plain code content s s' reply plain h =
    ap (λ (r : Reply). is_plain r.content) (json-ok code content s s' reply h).0 ∙ plain

module _ (lib : Library) (rq : Request) (d : Draw) where
  -- A handler that returns something of the server to an entitled request only.
  unfoldable Withholds : Handler Reply → Type 0
  Withholds h =
      (s s' : Server) (reply : Reply)
      → h s ≡ (ok reply, s')
      → (is_plain reply.content ≡ true) ⊎ IsEntitled lib rq d s

  json-Withholds :
      (code : ℕ) (content : Content) → is_plain content ≡ true → Withholds (json code content)
  unfolding Withholds
  json-Withholds code content plain s s' reply h =
      inl (json-is_plain code content s s' reply plain h)

  -- a rate limit, and then a plain content
  limited-Withholds :
      (bucket : Text) (limit window code : ℕ) (content : Content)
      → is_plain content ≡ true
      → Withholds (rate_limit lib rq d bucket limit window >>= λ done. json code content)
  unfolding Withholds
  limited-Withholds bucket limit window code content plain s s' reply h =
      let (done, t, limited, rest) =
        then_handle-ok (rate_limit lib rq d bucket limit window) _ s s' reply h in
      inl (json-is_plain code content t s' reply plain rest)

  authorize-bears :
      (scope : Text) (next : Device → Handler Reply) (s s' : Server) (reply : Reply)
      → (authorize lib rq d scope >>= next) s ≡ (ok reply, s')
      → IsBearer lib rq d scope s
  authorize-bears scope next s s' reply h =
      let (device, t, passed, rest) = then_handle-ok (authorize lib rq d scope) next s s' reply h in
      (authorize-IsBearer lib rq d scope s t device passed).0

  reads-Withholds :
      (next : Device → Handler Reply) → Withholds (authorize lib rq d (codes "drive:read") >>= next)
  unfolding Withholds
  reads-Withholds next s s' reply h = inr (inl (authorize-bears _ next s s' reply h))

  get_upload_session-Withholds : Withholds (get_upload_session lib rq d)
  unfolding Withholds get_upload_session
  get_upload_session-Withholds s s' reply h =
      inr (inr (inl (authorize-bears (codes "drive:write") _ s s' reply h)))

  get_shared-Withholds : Withholds (get_shared lib rq d)
  unfolding Withholds get_shared rate_limit
  get_shared-Withholds s s' reply h =
      let (done, t, limited, h1) =
        then_handle-ok (rate_limit lib rq d (codes "share-download") 120 60) _ s s' reply h in
      let (token, t1, spelt, h2) =
        then_handle-ok (pure (last_part lib rq d (codes "/s/"))) _ t s' reply h1 in
      let (found, t2, served, h3) =
        then_handle-ok
          (in_db (shared_download_manifest lib.signatures.hash d.now (lib.token_of token))) _ t1 s'
          reply h2 in
      let (is_token, same) = pure-ok _ t t1 token spelt in
      let unchanged : t1.vault.db ≡ s.vault.db =
        ap (λ (u : Server). u.vault.db) (sym same)
        ∙ ap (λ (p : Result (Unit {0}) × Server). p.1.vault.db) (sym limited) in
      inr (
        inr (
          inr (
            token,
            (found, t2.vault.db),
            is_token,
            subst
                (λ db.
                  shared_download_manifest lib.signatures.hash d.now (lib.token_of token) db
                  ≡ ok (found, t2.vault.db))
                unchanged
                (in_db-ok (shared_download_manifest lib.signatures.hash d.now (lib.token_of token))
                  t1 t2 found served),
          )))

  either-Withholds :
      (b : Bool) (h k : Handler Reply) → Withholds h → Withholds k → Withholds (if b then h else k)
  either-Withholds true h k w w' = w
  either-Withholds false h k w w' = w'

  get_prefixed-Withholds : Withholds (get_prefixed lib rq d)
  unfolding get_prefixed is_plain
  get_prefixed-Withholds =
      either-Withholds (starts_with (codes "/s/") rq.path) _ _ get_shared-Withholds (
        either-Withholds (starts_with (codes "/v1/uploads/") rq.path) _ _
          get_upload_session-Withholds (json-Withholds 404 route_not_found refl))

  dispatch-Withholds :
      (path : Text) (routes : List (Text × Handler Reply)) (otherwise : Handler Reply)
      → All (λ (r : Text × Handler Reply). Withholds r.1) routes
      → Withholds otherwise
      → Withholds (dispatch path routes otherwise)
  unfolding dispatch
  dispatch-Withholds path [] otherwise w k = k
  dispatch-Withholds path ((route, handler) ∷ routes) otherwise w k =
      either-Withholds (text_eq path route) _ _ w.0 (dispatch-Withholds path routes otherwise w.1 k)

  get_routes-Withholds : All (λ (r : Text × Handler Reply). Withholds r.1) (get_routes lib rq d)
  unfolding get_routes get_static get_health get_status get_console get_files get_browse get_trash
      get_shares get_plugins get_versions get_download is_plain
  get_routes-Withholds =
      let limited = limited-Withholds (codes "static") 120 60 200 page refl in
      (
        limited,
        (
          limited,
          (
            limited,
            (
              limited,
              (
                limited-Withholds (codes "health") 60 60 200 health refl,
                (
                  reads-Withholds _,
                  (
                    reads-Withholds _,
                    (
                      reads-Withholds _,
                      (
                        reads-Withholds _,
                        (
                          reads-Withholds _,
                          (
                            reads-Withholds _,
                            (
                              reads-Withholds _,
                              (reads-Withholds _, (reads-Withholds _, (reads-Withholds _, tt))),
                            ),
                          ),
                        ),
                      ),
                    ),
                  ),
                ),
              ),
            ),
          ),
        ),
      )

  -- A GET request that is answered with anything but a page, the health, an unknown route or a failure
  -- has, in the state before it, an access token that `verify_token` accepts for "drive:read" or for
  -- "drive:write", or the token of a share link that `shared_download_manifest` serves.
  pub do_get-IsEntitled :
      (s : Server) → (is_plain (do_get lib rq d s).0.content ≡ true) ⊎ IsEntitled lib rq d s
  unfolding do_get handle Withholds is_plain
  do_get-IsEntitled s = go (dispatch rq.path (get_routes lib rq d) (get_prefixed lib rq d) s) refl
    where
      go :
          (r : Result Reply × Server)
          → dispatch rq.path (get_routes lib rq d) (get_prefixed lib rq d) s ≡ r
          → (is_plain
                (elim r.0 as (λ u. Reply) [
                  | ok reply ↦ reply
                  | err e ↦ record { status_code = status_of e; content = failure e }
                ]).content
              ≡ true)
            ⊎ IsEntitled lib rq d s
      go (ok reply, s') e =
          dispatch-Withholds rq.path _ _ get_routes-Withholds get_prefixed-Withholds s s' reply e
      go (err x, s') e = inl refl
