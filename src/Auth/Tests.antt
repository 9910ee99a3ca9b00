-- ===== src/Auth/Tests.antt =====
-- A device is paired, logs in, and is revoked: runs, and the theorems at those runs.
use personal_secure_node.Prelude.{
  codes, ℕ, ◌<◌, ◌≡◌, ◌≢◌, refl, Text, ℤ, pos, true, false, none, some, [], ◌∷◌, ◌++◌, ok, err,
  authentication_error, authorization_error, text_eq, find_first, update_where, any, insert_by,
  sort_by, text_leb,
}
use personal_secure_node.Paths.{strip}
use personal_secure_node.Auth.{
  Signatures, Device, Pairing, Challenge, AccessToken, ActionToken, AuthDb, claim_pairing,
  revoke_device, is_active_device, device_by_id, pairing_of_code, insert_device, use_pairing,
}
use personal_secure_node.Auth.Tokens.{
  Exchange, create_challenge, exchange_token, verify_token, challenge_message, challenge_of,
  insert_challenge, use_challenge, new_token, scope_set, insert_token, token_of,
}
use personal_secure_node.Auth.Admin.{
  AdminExchange, exchange_admin_token, consume_action_token, action_token_of, use_action_token,
}
use personal_secure_node.Auth.Safety.{consume_action_token_once, exchange_token_once}
use personal_secure_node.Auth.Lockout.{claim_pairing_once, revoked_device_is_locked_out}

-- A toy scheme: a key signs a message by writing itself in front of it.
abbrev toy : Signatures
toy = record {
  valid_key = λ key. text_eq key (codes "K");
  verify = λ key signature message. text_eq signature (key ++ message);
  hex = λ id. id ∷ [];
  hash = λ n. n;
}

abbrev empty : AuthDb
empty = record {
  devices = [];
  pairing_sessions = [];
  auth_challenges = [];
  access_tokens = [];
  admin_challenges = [];
  action_tokens = [];
}

abbrev laptop : Device
laptop = record {
  id = 7;
  name = codes "laptop";
  public_key = codes "K";
  is_active = true;
  created_at = 5;
  last_seen_at = none;
  revoked_at = none;
}

abbrev offered : AuthDb
offered = record empty {
  pairing_sessions =
      record { id = 1; code_hash = 99; created_at = 0; expires_at = 300000000; used_at = none }
      ∷ [];
}

abbrev paired : AuthDb
paired = record offered {
  devices = laptop ∷ [];
  pairing_sessions =
      record { id = 1; code_hash = 99; created_at = 0; expires_at = 300000000; used_at = some 5 }
      ∷ [];
}

claim_run : claim_pairing toy 5 7 99 (codes " laptop ") (codes "K") offered ≡ ok (laptop, paired)
unfolding claim_pairing pairing_of_code insert_device use_pairing find_first update_where any
    text_eq strip
claim_run = refl

claim_pairing_once_example :
    ((p : Pairing) × (pairing_of_code toy 99 offered ≡ some p)
      × (p.used_at ≡ none)
      × (5 < p.expires_at))
    × (toy.valid_key (codes "K") ≡ true)
    × (any (λ x. text_eq (codes "K") x.public_key) offered.devices ≡ false)
    × (laptop.is_active ≡ true)
    × (laptop.public_key ≡ codes "K")
    × ((later id : ℕ) (other_name other_key : Text) (r : Device × AuthDb)
        → claim_pairing toy later id 99 other_name other_key paired ≢ ok r)
claim_pairing_once_example =
    claim_pairing_once toy 5 7 99 (codes " laptop ") (codes "K") offered paired laptop claim_run

abbrev login : Challenge
login = record {
  id = 3;
  device_id = 7;
  nonce = codes "n";
  created_at = 10;
  expires_at = 120000010;
  used_at = none;
}

abbrev challenged : AuthDb
challenged = record paired { auth_challenges = login ∷ [] }

challenge_run : create_challenge 10 3 (codes "n") 7 (pos 120) paired ≡ ok (login, challenged)
unfolding create_challenge insert_challenge device_by_id is_active_device find_first any
challenge_run = refl

abbrev exchange : Exchange
exchange = record {
  device_id = 7;
  challenge_id = 3;
  signature = codes "Kpsn-drive-auth-v1" ++ (10 ∷ 3 ∷ 10 ∷ codes "n");
  ttl_seconds = pos 900;
  scopes = codes "drive:write" ∷ codes "drive:read" ∷ codes "drive:write" ∷ [];
  now = 20;
  token_id = 4;
  raw_token = 55;
}

abbrev token : AccessToken
token = record {
  id = 4;
  device_id = 7;
  token_hash = 55;
  scopes = codes "drive:read" ∷ codes "drive:write" ∷ [];
  created_at = 20;
  expires_at = 900000020;
  revoked_at = none;
}

abbrev logged_in : AuthDb
logged_in = record challenged {
  auth_challenges = record login { used_at = some 20 } ∷ [];
  access_tokens = token ∷ [];
}

exchange_run : exchange_token toy exchange challenged ≡ ok (token, logged_in)
unfolding exchange_token device_by_id challenge_of challenge_message new_token scope_set
    use_challenge insert_token find_first update_where any text_eq text_leb sort_by insert_by
exchange_run = refl

exchange_token_once_example :
    ((d : Device) × (c : Challenge) × (device_by_id 7 challenged ≡ some d)
      × (challenge_of 3 7 challenged ≡ some c)
      × (d.is_active ≡ true)
      × (c.used_at ≡ none)
      × (20 < c.expires_at)
      × (toy.verify d.public_key exchange.signature (challenge_message toy 3 c.nonce) ≡ true))
    × ((y : Exchange) (r : AccessToken × AuthDb)
        → y.device_id ≡ 7
        → y.challenge_id ≡ 3
        → exchange_token toy y logged_in ≢ ok r)
exchange_token_once_example =
    exchange_token_once toy exchange challenged logged_in token exchange_run

abbrev grant : ActionToken
grant = record {
  id = 8;
  device_id = 7;
  action = codes "file.purge";
  resource = codes "a/b";
  token_hash = 66;
  created_at = 30;
  expires_at = 300000030;
  used_at = none;
}

abbrev granted : AuthDb
granted = record logged_in { action_tokens = grant ∷ [] }

abbrev spent : AuthDb
spent = record logged_in { action_tokens = record grant { used_at = some 40 } ∷ [] }

consume_run :
    consume_action_token toy 40 66 7 (codes "file.purge") (codes "a/b") granted ≡ ok (tt, spent)
unfolding consume_action_token action_token_of use_action_token device_by_id is_active_device
    find_first update_where text_eq
consume_run = refl

consume_action_token_once_example :
    ((t : ActionToken) × (action_token_of toy 66 7 (codes "file.purge") (codes "a/b") granted
        ≡ some t)
      × (t.device_id ≡ 7)
      × (t.action ≡ codes "file.purge")
      × (t.resource ≡ codes "a/b")
      × (t.used_at ≡ none)
      × (40 < t.expires_at))
    × (is_active_device (device_by_id 7 granted) ≡ true)
    × ((later : ℕ)
        → consume_action_token toy later 66 7 (codes "file.purge") (codes "a/b") spent
          ≡ err authorization_error)
consume_action_token_once_example =
    consume_action_token_once toy 40 66 7 (codes "file.purge") (codes "a/b") granted spent
      consume_run

abbrev locked : AuthDb
locked = record granted {
  devices = record laptop { is_active = false; revoked_at = some 50 } ∷ [];
  access_tokens = record token { revoked_at = some 50 } ∷ [];
  action_tokens = record grant { used_at = some 50 } ∷ [];
}

revoke_run : revoke_device 50 7 granted ≡ ok (tt, locked)
unfolding revoke_device any update_where
revoke_run = refl

revoked_device_is_locked_out_example :
    ((id : ℕ) (nonce : Text) (ttl : ℤ) (r : Challenge × AuthDb)
      → create_challenge 60 id nonce 7 ttl locked ≢ ok r)
    × ((x : Exchange) (r : AccessToken × AuthDb)
        → x.device_id ≡ 7
        → exchange_token toy x locked ≢ ok r)
    × ((x : AdminExchange) (r : ActionToken × AuthDb)
        → x.device_id ≡ 7
        → exchange_admin_token toy x locked ≢ ok r)
    × ((raw : ℕ) (scope : Text) (t : AccessToken)
        → token_of toy raw locked ≡ some t
        → t.device_id ≡ 7
        → verify_token toy 60 raw scope locked ≡ err authentication_error)
    × ((raw : ℕ) (action resource : Text)
        → consume_action_token toy 60 raw 7 action resource locked ≡ err authorization_error)
revoked_device_is_locked_out_example =
    revoked_device_is_locked_out 50 7 granted locked revoke_run toy 60
