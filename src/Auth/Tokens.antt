-- ===== src/Auth/Tokens.antt =====
-- Logging in: `create_challenge`, `exchange_token` and `verify_token`.
use personal_secure_node.Prelude.{
  ℕ, ◌+◌, Text, codes, ℤ, to_ℕ, int_ltb, Bool, not, ◌&&◌, ◌||◌, Option, none, some, List, [], ◌∷◌,
  ◌++◌, Result, ok, raise_if, or_raise, ◌>>=◌, ◌>>◌, value_error, authentication_error,
  authorization_error, constraint_violated, leb, ◌==◌, if◌then◌else◌, text_eq, text_leb, find_first,
  update_where, any, sort_by,
}
use personal_secure_node.Auth.{
  Signatures, Device, Challenge, AccessToken, AuthDb, is_null, seconds, device_by_id,
  is_active_device,
}

abbrev pub newline : ℕ
newline = 10

unfoldable pub challenge_message : Signatures → ℕ → Text → Text
challenge_message sig challenge_id nonce =
    codes "psn-drive-auth-v1" ++ (newline ∷ (sig.hex challenge_id ++ (newline ∷ nonce)))

-- INSERT INTO auth_challenges
unfoldable pub insert_challenge : Challenge → AuthDb → Result AuthDb
insert_challenge c db = do
  raise_if (any (λ d. c.id == d.id) db.auth_challenges) constraint_violated
  ok (record db { auth_challenges = db.auth_challenges ++ c ∷ [] })

unfoldable pub create_challenge : ℕ → ℕ → Text → ℕ → ℤ → AuthDb → Result (Challenge × AuthDb)
create_challenge now challenge_id nonce device_id ttl_seconds db = do
  raise_if (int_ltb ttl_seconds 10 || not (int_ltb ttl_seconds 301)) value_error
  raise_if (not (is_active_device (device_by_id device_id db))) authentication_error
  let c : Challenge = record {
    id = challenge_id;
    device_id = device_id;
    nonce = nonce;
    created_at = now;
    expires_at = now + seconds (to_ℕ ttl_seconds);
    used_at = none;
  }
  db1 ← insert_challenge c db
  ok (c, db1)

-- `SELECT * FROM auth_challenges WHERE id = ? AND device_id = ?`
unfoldable pub challenge_of : ℕ → ℕ → AuthDb → Option Challenge
challenge_of id device_id db =
    find_first (λ c. id == c.id && device_id == c.device_id) db.auth_challenges

-- UPDATE auth_challenges SET used_at = ? WHERE id = ?
unfoldable pub use_challenge : ℕ → ℕ → AuthDb → AuthDb
use_challenge now id db = record db {
  auth_challenges =
      update_where (λ c. id == c.id) (λ c. record c { used_at = some now }) db.auth_challenges;
}

unfoldable pub has_scope : Text → List Text → Bool
has_scope s ss = any (λ t. text_eq s t) ss

-- `sorted(set(scopes))`; the stored text joins them by blanks
unfoldable pub scope_set : List Text → List Text
unfolding has_scope
scope_set [] = []
scope_set (s ∷ ss) = let rest = scope_set ss in if has_scope s ss then rest else s ∷ rest

-- INSERT INTO access_tokens
unfoldable pub insert_token : AccessToken → AuthDb → Result AuthDb
insert_token t db = do
  raise_if (any (λ u. t.id == u.id || t.token_hash == u.token_hash) db.access_tokens)
      constraint_violated
  ok (record db { access_tokens = db.access_tokens ++ t ∷ [] })

-- the arguments of `exchange_token`, with the clock, the fresh identifier and the random token
pub record Exchange : Type 0 where
  pub device_id : ℕ
  pub challenge_id : ℕ
  pub signature : Text
  pub ttl_seconds : ℤ
  pub scopes : List Text
  pub now : ℕ
  pub token_id : ℕ
  pub raw_token : ℕ

unfoldable pub new_token : Signatures → Exchange → AccessToken
new_token sig x = record {
  id = x.token_id;
  device_id = x.device_id;
  token_hash = sig.hash x.raw_token;
  scopes = sort_by text_leb (scope_set x.scopes);
  created_at = x.now;
  expires_at = x.now + seconds (to_ℕ x.ttl_seconds);
  revoked_at = none;
}

unfoldable pub exchange_token : Signatures → Exchange → AuthDb → Result (AccessToken × AuthDb)
exchange_token sig x db = do
  raise_if (int_ltb x.ttl_seconds 60 || not (int_ltb x.ttl_seconds 3601)) value_error
  d ← or_raise (device_by_id x.device_id db) authentication_error
  raise_if (not d.is_active) authentication_error
  c ← or_raise (challenge_of x.challenge_id x.device_id db) authentication_error
  raise_if (not (is_null c.used_at)) authentication_error
  raise_if (leb c.expires_at x.now) authentication_error
  raise_if
      (not (sig.verify d.public_key x.signature (challenge_message sig x.challenge_id c.nonce)))
      authentication_error
  db1 ← insert_token (new_token sig x) (use_challenge x.now x.challenge_id db)
  ok (new_token sig x, db1)

unfoldable pub token_of : Signatures → ℕ → AuthDb → Option AccessToken
token_of sig raw_token db = find_first (λ t. sig.hash raw_token == t.token_hash) db.access_tokens

-- UPDATE devices SET last_seen_at = ? WHERE id = ?
unfoldable pub see_device : ℕ → ℕ → AuthDb → AuthDb
see_device now id db = record db {
  devices = update_where (λ d. id == d.id) (λ d. record d { last_seen_at = some now }) db.devices;
}

-- The reply is the device and the scopes of the token.
unfoldable pub verify_token :
    Signatures → ℕ → ℕ → Text → AuthDb → Result ((Device × List Text) × AuthDb)
verify_token sig now raw_token required_scope db = do
  t ← or_raise (token_of sig raw_token db) authentication_error
  d ← or_raise (device_by_id t.device_id db) authentication_error
  raise_if (not (is_null t.revoked_at) || not d.is_active) authentication_error
  raise_if (leb t.expires_at now) authentication_error
  raise_if (not (has_scope required_scope t.scopes)) authorization_error
  ok ((d, t.scopes), see_device now t.device_id db)
