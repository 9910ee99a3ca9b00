-- ===== src/Auth.antt =====
-- `DeviceAuth` of psn_drive/auth.py: its tables, and the pairing of devices.
pub mod Tokens
pub mod Admin
pub mod Safety
pub mod Seen
pub mod Lockout
mod Tests
use personal_secure_node.Prelude.{
  ℕ, ◌+◌, ◌*◌, Text, ℤ, to_ℕ, int_ltb, Bool, true, false, not, ◌&&◌, ◌||◌, Option, none, some, List,
  [], ◌∷◌, ◌++◌, Result, ok, err, raise_if, or_raise, ◌>>=◌, ◌>>◌, value_error, pairing_error,
  authentication_error, constraint_violated, ltb, leb, ◌==◌, if◌then◌else◌, text_eq, find_first,
  update_where, any, length,
}
use personal_secure_node.Paths.{strip}

-- The Ed25519 keys of the `cryptography` package and base64, on the texts that a device sends: a
-- valid public key, and a signature that verifies. `hex` spells an identifier, and `hash` is SHA-256.
pub record Signatures : Type 0 where
  pub valid_key : Text → Bool
  pub verify : Text → Text → Text → Bool
  pub hex : ℕ → Text
  pub hash : ℕ → ℕ

pub record Device : Type 0 where
  pub id : ℕ
  pub name : Text
  pub public_key : Text
  pub is_active : Bool
  pub created_at : ℕ
  pub last_seen_at : Option ℕ
  pub revoked_at : Option ℕ

pub record Pairing : Type 0 where
  pub id : ℕ
  pub code_hash : ℕ
  pub created_at : ℕ
  pub expires_at : ℕ
  pub used_at : Option ℕ

pub record Challenge : Type 0 where
  pub id : ℕ
  pub device_id : ℕ
  pub nonce : Text
  pub created_at : ℕ
  pub expires_at : ℕ
  pub used_at : Option ℕ

pub record AccessToken : Type 0 where
  pub id : ℕ
  pub device_id : ℕ
  pub token_hash : ℕ
  pub scopes : List Text
  pub created_at : ℕ
  pub expires_at : ℕ
  pub revoked_at : Option ℕ

pub record AdminChallenge : Type 0 where
  pub id : ℕ
  pub device_id : ℕ
  pub action : Text
  pub resource : Text
  pub nonce : Text
  pub created_at : ℕ
  pub expires_at : ℕ
  pub used_at : Option ℕ

pub record ActionToken : Type 0 where
  pub id : ℕ
  pub device_id : ℕ
  pub action : Text
  pub resource : Text
  pub token_hash : ℕ
  pub created_at : ℕ
  pub expires_at : ℕ
  pub used_at : Option ℕ

pub record AuthDb : Type 0 where
  pub devices : List Device
  pub pairing_sessions : List Pairing
  pub auth_challenges : List Challenge
  pub access_tokens : List AccessToken
  pub admin_challenges : List AdminChallenge
  pub action_tokens : List ActionToken

abbrev pub is_null : Option ℕ → Bool
is_null none = true
is_null (some t) = false

abbrev pub seconds : ℕ → ℕ
seconds n = n * 1000000

-- `SELECT … FROM devices WHERE id = ?`
unfoldable pub device_by_id : ℕ → AuthDb → Option Device
device_by_id id db = find_first (λ d. id == d.id) db.devices

-- `device is None or device["status"] != "active"`
unfoldable pub is_active_device : Option Device → Bool
is_active_device none = false
is_active_device (some d) = d.is_active

-- The result is the pairing; `code` is what `secrets` returns.
unfoldable pub create_pairing : Signatures → ℕ → ℕ → ℕ → ℤ → AuthDb → Result (Pairing × AuthDb)
create_pairing sig now pairing_id code ttl_seconds db = do
  raise_if (int_ltb ttl_seconds 30 || not (int_ltb ttl_seconds 3601)) value_error
  let p : Pairing = record {
    id = pairing_id;
    code_hash = sig.hash code;
    created_at = now;
    expires_at = now + seconds (to_ℕ ttl_seconds);
    used_at = none;
  }
  raise_if (any (λ q. p.id == q.id || p.code_hash == q.code_hash) db.pairing_sessions)
      constraint_violated
  ok (p, record db { pairing_sessions = db.pairing_sessions ++ p ∷ [] })

unfoldable pub pairing_of_code : Signatures → ℕ → AuthDb → Option Pairing
pairing_of_code sig code db = find_first (λ p. sig.hash code == p.code_hash) db.pairing_sessions

-- INSERT INTO devices
unfoldable pub insert_device : Device → AuthDb → Result AuthDb
insert_device d db = do
  raise_if (any (λ e. d.id == e.id || text_eq d.public_key e.public_key) db.devices)
      constraint_violated
  ok (record db { devices = db.devices ++ d ∷ [] })

-- UPDATE pairing_sessions SET used_at = ? WHERE id = ?
unfoldable pub use_pairing : ℕ → ℕ → AuthDb → AuthDb
use_pairing now id db = record db {
  pairing_sessions =
      update_where (λ p. id == p.id) (λ p. record p { used_at = some now }) db.pairing_sessions;
}

unfoldable pub claim_pairing :
    Signatures → ℕ → ℕ → ℕ → Text → Text → AuthDb → Result (Device × AuthDb)
claim_pairing sig now device_id code device_name public_key db = do
  let name = strip device_name
  raise_if (length name == 0 || ltb 100 (length name)) pairing_error
  raise_if (not (sig.valid_key public_key)) pairing_error
  p ← or_raise (pairing_of_code sig code db) pairing_error
  raise_if (not (is_null p.used_at)) pairing_error
  raise_if (leb p.expires_at now) pairing_error
  raise_if (any (λ d. text_eq public_key d.public_key) db.devices) pairing_error
  let d : Device = record {
    id = device_id;
    name = name;
    public_key = public_key;
    is_active = true;
    created_at = now;
    last_seen_at = none;
    revoked_at = none;
  }
  db1 ← insert_device d db
  ok (d, use_pairing now p.id db1)

-- `revoke_device`: `WHERE id = ? AND status = 'active'` must meet one row
unfoldable pub revoke_device : ℕ → ℕ → AuthDb → Result (Unit {0} × AuthDb)
revoke_device now device_id db = do
  raise_if (not (any (λ d. device_id == d.id && d.is_active) db.devices)) authentication_error
  ok (
    tt,
    record db {
      devices =
          update_where (λ d. device_id == d.id && d.is_active)
            (λ d. record d { is_active = false; revoked_at = some now }) db.devices;
      access_tokens =
          update_where (λ t. device_id == t.device_id && is_null t.revoked_at)
            (λ t. record t { revoked_at = some now }) db.access_tokens;
      action_tokens =
          update_where (λ t. device_id == t.device_id && is_null t.used_at)
            (λ t. record t { used_at = some now }) db.action_tokens;
    },
  )
