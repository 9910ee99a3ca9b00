-- ===== src/Http/Handler.antt =====
-- What the handlers of `DriveRequestHandler` share: the calls of the server's parts, `_rate_limit`,
-- `_authorize` and `_handle_error`.
use personal_secure_node.Prelude.{
  ℕ, Text, codes, Option, none, some, List, [], ◌∷◌, Result, ok, err, DriveError,
  authentication_error, authorization_error, file_not_found_in_vault, upload_conflict,
  pairing_error, quota_exceeded, rate_limit_exceeded, attribute_error, index_error, file_not_found,
  file_exists, constraint_violated, unsupported_argument, overflow_error, if◌then◌else◌, text_eq,
}
use personal_secure_node.Registry.Manifest.{partition}
use personal_secure_node.Auth.{AuthDb, Device}
use personal_secure_node.Auth.Tokens.{verify_token}
use personal_secure_node.Schema.{Db}
use personal_secure_node.Vault.{Vault, transact}
use personal_secure_node.Registry
use personal_secure_node.Http.{Library, Request, Draw, Server, Reply, Content, failure}
use personal_secure_node.Http.Limiter.{check}

-- A call that may raise, and keeps what it did until then.
abbrev pub Handler : Type 0 → Type 0
Handler A = Server → Result A × Server

abbrev pub then_handle : {A B : Type 0} → Result A × Server → (A → Handler B) → Result B × Server
then_handle (ok a, s) next = next a s
then_handle (err e, s) next = (err e, s)

infixl 5 ◌>>=◌
unfoldable pub ◌>>=◌ : {A B : Type 0} → Handler A → (A → Handler B) → Handler B
(first >>= next) s = then_handle (first s) next

infixl 5 ◌>>◌
abbrev pub ◌>>◌ : {B : Type 0} → Handler (Unit {0}) → Handler B → Handler B
first >> next = first >>= λ done. next

unfoldable pub pure : {A : Type 0} → Result A → Handler A
pure r s = (r, s)

unfoldable pub reading : {A : Type 0} → (Server → A) → Handler A
reading f s = (ok (f s), s)

unfoldable pub in_vault : {A : Type 0} → (Vault → Result A × Vault) → Handler A
in_vault f s = let (r, v) = f s.vault in (r, record s { vault = v })

abbrev pub in_db : {A : Type 0} → (Db → Result (A × Db)) → Handler A
in_db f = in_vault (transact f)

unfoldable pub in_auth : {A : Type 0} → (AuthDb → Result (A × AuthDb)) → Handler A
in_auth f s = elim (f s.auth) [ ok (a, db) ↦ (ok a, record s { auth = db }) | err e ↦ (err e, s) ]

unfoldable pub in_registry :
    {A : Type 0} → (Registry.Tables → Result (A × Registry.Tables)) → Handler A
in_registry f s = elim (f s.registry) [
  | ok (a, t) ↦ (ok a, record s { registry = t })
  | err e ↦ (err e, s)
]

-- `self._json(status, value)`
unfoldable pub json : ℕ → Content → Handler Reply
unfolding pure
json code value = pure (ok (record { status_code = code; content = value }))

-- the `isinstance` chain of `_handle_error`
unfoldable pub status_of : DriveError → ℕ
status_of authentication_error = 401
status_of authorization_error = 403
status_of file_not_found_in_vault = 404
status_of upload_conflict = 409
status_of pairing_error = 409
status_of quota_exceeded = 507
status_of (rate_limit_exceeded n) = 429
status_of attribute_error = 500
status_of index_error = 500
status_of file_not_found = 500
status_of file_exists = 500
status_of constraint_violated = 500
status_of unsupported_argument = 500
status_of overflow_error = 500
status_of e = 400

-- the `except` of `do_GET`, `do_POST` and `do_PUT`
unfoldable pub handle : Handler Reply → Server → Reply × Server
handle body s =
    let (r, s') = body s in
    (
      elim r [
        | ok reply ↦ reply
        | err e ↦ record { status_code = status_of e; content = failure e }
      ],
      s',
    )

-- `header.partition(" ")`: the scheme, and the token behind it
unfoldable pub bearer : Library → Option Text → Result Text
bearer lib header =
    let (scheme, token) = partition b' ' (elim header [ none ↦ [] | some t ↦ t ]) in
    elim token [
      | none ↦ err authentication_error
      | some t ↦ elim t [
        | [] ↦ err authentication_error
        | c ∷ cs ↦
            if text_eq (lib.lower scheme) (codes "bearer")
            then ok (c ∷ cs)
            else err authentication_error
      ]
    ]

module _ (lib : Library) (rq : Request) (d : Draw) where
  -- `_rate_limit`
  unfoldable pub rate_limit : Text → ℕ → ℕ → Handler (Unit {0})
  rate_limit bucket limit window_seconds s =
      let (r, limiter) = check d.monotonic rq.client bucket limit window_seconds s.rate_limiter in
      (r, record s { rate_limiter = limiter })

  -- `_authorize`; the result is the device that the token is of
  unfoldable pub authorize : Text → Handler Device
  unfolding rate_limit bearer
  authorize scope = do
    rate_limit (codes "authenticated") 240 60
    token ← pure (bearer lib rq.authorization)
    (device, scopes) ← in_auth (verify_token lib.signatures d.now (lib.token_of token) scope)
    pure (ok device)

-- The paths of an `if` chain with their handlers, in the order of the chain.
unfoldable pub dispatch : Text → List (Text × Handler Reply) → Handler Reply → Handler Reply
dispatch path [] otherwise = otherwise
dispatch path ((route, handler) ∷ routes) otherwise =
    let rest = dispatch path routes otherwise in if text_eq path route then handler else rest
