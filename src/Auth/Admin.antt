-- ===== src/Auth/Admin.antt =====
-- Administrator actions: `create_admin_challenge`, `exchange_admin_token` and
-- `consume_action_token`.
use personal_secure_node.Prelude.{
  ℕ, ◌+◌, Text, codes, Bool, not, ◌&&◌, ◌||◌, Option, none, some, [], ◌∷◌, ◌++◌, Result, ok,
  raise_if, or_raise, ◌>>=◌, ◌>>◌, value_error, authentication_error, authorization_error,
  constraint_violated, ltb, leb, ◌==◌, text_eq, find_first, update_where, any, length,
}
use personal_secure_node.Auth.{
  Signatures, AdminChallenge, ActionToken, AuthDb, is_null, seconds, device_by_id, is_active_device,
}
use personal_secure_node.Auth.Tokens.{newline}

unfoldable pub admin_challenge_message : Signatures → ℕ → Text → Text → Text → Text
admin_challenge_message sig challenge_id nonce action resource =
    codes "psn-drive-admin-v1"
    ++ (newline
        ∷ (sig.hex challenge_id
            ++ (newline ∷ (nonce ++ (newline ∷ (action ++ (newline ∷ resource)))))))

-- `action in ("file.delete", "file.purge")`
unfoldable pub is_admin_action : Text → Bool
is_admin_action action = text_eq action (codes "file.delete") || text_eq action (codes "file.purge")

unfoldable pub insert_admin_challenge : AdminChallenge → AuthDb → Result AuthDb
insert_admin_challenge c db = do
  raise_if (any (λ d. c.id == d.id) db.admin_challenges) constraint_violated
  ok (record db { admin_challenges = db.admin_challenges ++ c ∷ [] })

-- `ttl_seconds` is the method's default, the one value that the program uses
unfoldable pub create_admin_challenge :
    ℕ → ℕ → Text → ℕ → Text → Text → AuthDb → Result (AdminChallenge × AuthDb)
create_admin_challenge now challenge_id nonce device_id action resource db = do
  raise_if (not (is_admin_action action)) authorization_error
  raise_if (length resource == 0 || ltb 1024 (length resource)) value_error
  raise_if (not (is_active_device (device_by_id device_id db))) authentication_error
  let c : AdminChallenge = record {
    id = challenge_id;
    device_id = device_id;
    action = action;
    resource = resource;
    nonce = nonce;
    created_at = now;
    expires_at = now + seconds 120;
    used_at = none;
  }
  db1 ← insert_admin_challenge c db
  ok (c, db1)

unfoldable pub admin_challenge_of : ℕ → ℕ → AuthDb → Option AdminChallenge
admin_challenge_of id device_id db =
    find_first (λ c. id == c.id && device_id == c.device_id) db.admin_challenges

unfoldable pub use_admin_challenge : ℕ → ℕ → AuthDb → AuthDb
use_admin_challenge now id db = record db {
  admin_challenges =
      update_where (λ c. id == c.id) (λ c. record c { used_at = some now }) db.admin_challenges;
}

unfoldable pub insert_action_token : ActionToken → AuthDb → Result AuthDb
insert_action_token t db = do
  raise_if (any (λ u. t.id == u.id || t.token_hash == u.token_hash) db.action_tokens)
      constraint_violated
  ok (record db { action_tokens = db.action_tokens ++ t ∷ [] })

-- the arguments of `exchange_admin_token`, with the clock, the fresh identifier and the random token
pub record AdminExchange : Type 0 where
  pub device_id : ℕ
  pub challenge_id : ℕ
  pub signature : Text
  pub now : ℕ
  pub token_id : ℕ
  pub raw_token : ℕ

unfoldable pub new_action_token : Signatures → AdminExchange → AdminChallenge → ActionToken
new_action_token sig x c = record {
  id = x.token_id;
  device_id = x.device_id;
  action = c.action;
  resource = c.resource;
  token_hash = sig.hash x.raw_token;
  created_at = x.now;
  expires_at = x.now + seconds 300;
  used_at = none;
}

unfoldable pub exchange_admin_token :
    Signatures → AdminExchange → AuthDb → Result (ActionToken × AuthDb)
exchange_admin_token sig x db = do
  d ← or_raise (device_by_id x.device_id db) authentication_error
  raise_if (not d.is_active) authentication_error
  c ← or_raise (admin_challenge_of x.challenge_id x.device_id db) authentication_error
  raise_if (not (is_null c.used_at) || leb c.expires_at x.now) authentication_error
  raise_if
      (not (
        sig.verify d.public_key x.signature
          (admin_challenge_message sig x.challenge_id c.nonce c.action c.resource)))
      authentication_error
  db1 ← insert_action_token (new_action_token sig x c) (use_admin_challenge x.now x.challenge_id db)
  ok (new_action_token sig x c, db1)

-- the token of an active device for exactly this action on this resource
unfoldable pub action_token_of : Signatures → ℕ → ℕ → Text → Text → AuthDb → Option ActionToken
action_token_of sig raw_token device_id action resource db =
    find_first
      (λ t.
        sig.hash raw_token == t.token_hash
        && device_id == t.device_id
        && text_eq action t.action
        && text_eq resource t.resource
        && is_active_device (device_by_id t.device_id db))
      db.action_tokens

-- UPDATE action_tokens SET used_at = ? WHERE id = ?
unfoldable pub use_action_token : ℕ → ℕ → AuthDb → AuthDb
use_action_token now id db = record db {
  action_tokens =
      update_where (λ t. id == t.id) (λ t. record t { used_at = some now }) db.action_tokens;
}

unfoldable pub consume_action_token :
    Signatures → ℕ → ℕ → ℕ → Text → Text → AuthDb → Result (Unit {0} × AuthDb)
consume_action_token sig now raw_token device_id action resource db = do
  t ← or_raise (action_token_of sig raw_token device_id action resource db) authorization_error
  raise_if (not (is_null t.used_at)) authorization_error
  raise_if (leb t.expires_at now) authorization_error
  ok (tt, use_action_token now t.id db)
