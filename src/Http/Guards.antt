-- ===== src/Http/Guards.antt =====
-- Handlers that keep the vault and the registry, and handlers that change them with a valid access
-- token only.
use personal_secure_node.Prelude.{
  ℕ, Text, codes, Bool, true, false, List, [], ◌∷◌, Result, ok, err, ◌⊎◌, inl, inr, ◌≡◌, refl, sym,
  ap, subst, ◌∙◌, All, text_eq, ok-injective, if◌then◌else◌,
}
use personal_secure_node.Auth.{AuthDb, Device}
use personal_secure_node.Auth.Tokens.{verify_token}
use personal_secure_node.Http.{Library, Request, Draw, Server, Reply, route_not_found}
use personal_secure_node.Http.Handler.{
  Handler, ◌>>=◌, then_handle, pure, in_auth, json, rate_limit, bearer, authorize, dispatch, handle,
}
use personal_secure_node.Http.Chains.{
  then_handle-ok, pure-ok, in_auth-ok, IsKept, Keeps, then_handle-Keeps, in_auth-Keeps, json-Keeps,
}

-- The request has an access token that is valid, for the scope, at the server's state.
abbrev pub IsBearer : Library → Request → Draw → Text → Server → Type 0
IsBearer lib rq d scope s =
    (token : Text) × (bearer lib rq.authorization ≡ ok token)
    × ((found : (Device × List Text) × AuthDb) × (verify_token lib.signatures d.now
            (lib.token_of token) scope s.auth
          ≡ ok found))

-- The request has an access token that is valid, for the scope, in the tables `auth`: it is the
-- device's, and `auth'` are the tables after it was verified.
abbrev pub IsLoggedIn : Library → Request → Draw → Text → AuthDb → Device → AuthDb → Type 0
IsLoggedIn lib rq d scope auth device auth' =
    (token : Text) × (scopes : List Text) × (bearer lib rq.authorization ≡ ok token)
    × (verify_token lib.signatures d.now (lib.token_of token) scope auth
        ≡ ok ((device, scopes), auth'))

module _ (lib : Library) (rq : Request) (d : Draw) where
  pub rate_limit-Keeps :
      (bucket : Text) (limit window : ℕ) → Keeps (rate_limit lib rq d bucket limit window)
  unfolding rate_limit Keeps
  rate_limit-Keeps bucket limit window s = (refl, refl)

  -- A handler that raises, or else has a valid token for the scope, and keeps the vault.
  unfoldable pub Checks : {A : Type 0} → Text → Handler A → Type 0
  Checks {A} scope h =
      (s : Server) → IsKept s (h s).1 × ((a : A) → (h s).0 ≡ ok a → IsBearer lib rq d scope s)

  -- A handler that keeps the vault, or else has a valid token for the scope.
  unfoldable pub Guards : {A : Type 0} → Text → Handler A → Type 0
  Guards scope h = (s : Server) → IsKept s (h s).1 ⊎ IsBearer lib rq d scope s

  pub authorize-IsLoggedIn :
      (scope : Text) (s s' : Server) (device : Device)
      → authorize lib rq d scope s ≡ (ok device, s')
      → IsLoggedIn lib rq d scope s.auth device s'.auth
  unfolding authorize rate_limit
  authorize-IsLoggedIn scope s s' device h =
      let (done, t, limited, h1) =
        then_handle-ok (rate_limit lib rq d (codes "authenticated") 240 60) _ s s' device h in
      let (token, t1, spelt, h2) =
        then_handle-ok (pure (bearer lib rq.authorization)) _ t s' device h1 in
      let ((found, scopes), t2, verified, h3) =
        then_handle-ok (in_auth (verify_token lib.signatures d.now (lib.token_of token) scope)) _ t1
          s' device h2 in
      let (is_token, same) = pure-ok _ t t1 token spelt in
      let (db, holds, after) =
        in_auth-ok (verify_token lib.signatures d.now (lib.token_of token) scope) t1 t2
          (found, scopes) verified in
      let (is_device, last) = pure-ok (ok found) t2 s' device h3 in
      let unchanged : t1.auth ≡ s.auth =
        ap (λ (u : Server). u.auth) (sym same)
        ∙ ap (λ (p : Result (Unit {0}) × Server). p.1.auth) (sym limited) in
      (
        token,
        scopes,
        is_token,
        ap (verify_token lib.signatures d.now (lib.token_of token) scope) (sym unchanged)
            ∙ (holds ∙ cc (ok-injective is_device, ap (λ (u : Server). u.auth) (after ∙ last))),
      )

  pub authorize-Checks : (scope : Text) → Checks scope (authorize lib rq d scope)
  unfolding authorize rate_limit Checks Keeps pure
  authorize-Checks scope s = (
    then_handle-Keeps (rate_limit lib rq d (codes "authenticated") 240 60) _
        (rate_limit-Keeps (codes "authenticated") 240 60)
        (λ done.
          then_handle-Keeps (pure (bearer lib rq.authorization)) _ (λ t. (refl, refl))
            (λ token.
              then_handle-Keeps
                (in_auth (verify_token lib.signatures d.now (lib.token_of token) scope)) _
                (in_auth-Keeps _) (λ found t. (refl, refl))))
        s,
    λ device h.
        let s' : Server = (authorize lib rq d scope s).1 in
        let (token, scopes, is_token, holds) =
          authorize-IsLoggedIn scope s s' device (λ i. (h i, s')) in
        (token, is_token, (((device, scopes), s'.auth), holds)),
  )

  pub authorize-IsBearer :
      (scope : Text) (s s' : Server) (device : Device)
      → authorize lib rq d scope s ≡ (ok device, s')
      → IsBearer lib rq d scope s × IsKept s s'
  unfolding Checks
  authorize-IsBearer scope s s' device h = (
    (authorize-Checks scope s).1 device (ap (λ (p : Result Device × Server). p.0) h),
    subst (λ u. IsKept s u) (ap (λ (p : Result Device × Server). p.1) h)
        (authorize-Checks scope s).0,
  )

  pub then_handle-Checks :
      {A B : Type 0} (scope : Text) (first : Handler A) (next : A → Handler B)
      → Checks scope first
      → ((a : A) → Keeps (next a))
      → Checks scope (first >>= next)
  unfolding Checks Keeps ◌>>=◌
  then_handle-Checks {A = A} {B = B} scope first next h k s =
      (then_handle-Keeps first next (λ u. (h u).0) k s, go (first s) (h s).1)
    where
      go :
          (r : Result A × Server)
          → ((a : A) → r.0 ≡ ok a → IsBearer lib rq d scope s)
          → (b : B) → (then_handle r next).0 ≡ ok b
          → IsBearer lib rq d scope s
      go (ok a, s') bears b e = bears a refl
      go (err x, s') bears b e = cc

  pub then_handle-Guards :
      {A B : Type 0} (scope : Text) (first : Handler A) (next : A → Handler B)
      → Checks scope first
      → Guards scope (first >>= next)
  unfolding Checks Guards ◌>>=◌
  then_handle-Guards {A = A} {B = B} scope first next h s = go (first s) (h s).0 (h s).1
    where
      go :
          (r : Result A × Server)
          → IsKept s r.1
          → ((a : A) → r.0 ≡ ok a → IsBearer lib rq d scope s)
          → IsKept s (then_handle r next).1 ⊎ IsBearer lib rq d scope s
      go (ok a, s') kept bears = inr (bears a refl)
      go (err x, s') kept bears = inl kept

  pub after_rate_limit :
      {B : Type 0} (bucket : Text) (limit window : ℕ) (next : Unit {0} → Handler B)
      → ((u : Unit {0}) → Keeps (next u))
      → Keeps (rate_limit lib rq d bucket limit window >>= next)
  after_rate_limit bucket limit window next k =
      then_handle-Keeps (rate_limit lib rq d bucket limit window) next
        (rate_limit-Keeps bucket limit window) k

  pub Keeps-Guards : {A : Type 0} (h : Handler A) → Keeps h → Guards (codes "drive:write") h
  unfolding Keeps Guards
  Keeps-Guards h k s = inl (k s)

  -- a route that starts with `_authorize`
  pub authorized :
      {A : Type 0} (next : Device → Handler A)
      → Guards (codes "drive:write") (authorize lib rq d (codes "drive:write") >>= next)
  authorized next =
      then_handle-Guards (codes "drive:write") (authorize lib rq d (codes "drive:write")) next
        (authorize-Checks (codes "drive:write"))

  pub either :
      (b : Bool) (h k : Handler Reply)
      → Guards (codes "drive:write") h
      → Guards (codes "drive:write") k
      → Guards (codes "drive:write") (if b then h else k)
  either true h k g g' = g
  either false h k g g' = g'

  pub dispatch-Guards :
      (path : Text) (routes : List (Text × Handler Reply)) (otherwise : Handler Reply)
      → All (λ (r : Text × Handler Reply). Guards (codes "drive:write") r.1) routes
      → Guards (codes "drive:write") otherwise
      → Guards (codes "drive:write") (dispatch path routes otherwise)
  unfolding dispatch
  dispatch-Guards path [] otherwise h k = k
  dispatch-Guards path ((route, handler) ∷ routes) otherwise h k =
      either (text_eq path route) _ _ h.0 (dispatch-Guards path routes otherwise h.1 k)

  pub not_found : Guards (codes "drive:write") (json 404 route_not_found)
  not_found = Keeps-Guards _ (json-Keeps _ _)

  pub handle-Guards :
      (h : Handler Reply)
      → Guards (codes "drive:write") h
      → (s : Server) → IsKept s (handle h s).1 ⊎ IsBearer lib rq d (codes "drive:write") s
  unfolding Guards handle
  handle-Guards h k s = k s
