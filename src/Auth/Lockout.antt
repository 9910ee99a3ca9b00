-- ===== src/Auth/Lockout.antt =====
-- `claim_pairing` of a used code, and what `revoke_device` leaves of a device.
use mathlib.Core.Option
use personal_secure_node.Prelude.{
  ℕ, ◌<◌, ◌≡◌, ◌≢◌, refl, ◌∙◌, Text, ℤ, true, false, ◌&&◌, none, some, ok, err, arith,
  authentication_error, authorization_error, ◌==◌, ==_refl, if◌then◌else◌, find_first_holds,
  update_where, update_where-find, any, text_eq, Result-cases, Option-cases, inl, inr,
}
use personal_secure_node.Auth.{
  Signatures, Device, Pairing, Challenge, AccessToken, ActionToken, AuthDb, is_null, device_by_id,
  is_active_device, pairing_of_code, insert_device, use_pairing, claim_pairing, revoke_device,
}
use personal_secure_node.Auth.Tokens.{
  Exchange, exchange_token, token_of, verify_token, create_challenge,
}
use personal_secure_node.Auth.Safety.{action_token_matches}
use personal_secure_node.Auth.Admin.{
  AdminExchange, action_token_of, consume_action_token, exchange_admin_token,
}

pairing_of_code-use :
    (sig : Signatures) (now code : ℕ) (db : AuthDb) (p : Pairing)
    → pairing_of_code sig code db ≡ some p
    → pairing_of_code sig code (use_pairing now p.id db) ≡ some (record p { used_at = some now })
unfolding pairing_of_code use_pairing
pairing_of_code-use sig now code db p h =
    update_where-find _ (λ q. p.id == q.id) (λ q. record q { used_at = some now })
      db.pairing_sessions (λ q. refl)
    ∙ rw h (rw ==_refl)

pairing_of_code-insert :
    (sig : Signatures) (code : ℕ) (d : Device) (db db1 : AuthDb)
    → insert_device d db ≡ ok db1
    → pairing_of_code sig code db1 ≡ pairing_of_code sig code db
unfolding insert_device pairing_of_code
pairing_of_code-insert sig code d db db1 h = ground arith

claim_refused :
    (sig : Signatures) (now id code : ℕ) (name key : Text) (db : AuthDb) (p : Pairing)
    (r : Device × AuthDb)
    → pairing_of_code sig code db ≡ some p
    → is_null p.used_at ≡ false
    → claim_pairing sig now id code name key db ≢ ok r
unfolding claim_pairing
claim_refused sig now id code name key db p r e used h = ground (arith, e)

module _ (sig : Signatures) (now device_id code : ℕ) (name key : Text) (db db1 : AuthDb)
    (d : Device) where
  claim_parts :
      (p : Pairing)
      → pairing_of_code sig code db ≡ some p
      → claim_pairing sig now device_id code name key db ≡ ok (d, db1)
      → (p.used_at ≡ none)
        × (now < p.expires_at)
        × (sig.valid_key key ≡ true)
        × (d.is_active ≡ true)
        × (d.public_key ≡ key)
        × (any (λ x. text_eq key x.public_key) db.devices ≡ false)
  unfolding claim_pairing
  claim_parts p e h = ground (arith, e)

  claim_state :
      (p : Pairing)
      → pairing_of_code sig code db ≡ some p
      → claim_pairing sig now device_id code name key db ≡ ok (d, db1)
      → (db0 : AuthDb) × (insert_device d db ≡ ok db0) × (db1 ≡ use_pairing now p.id db0)
  unfolding claim_pairing
  claim_state p e h = elim (Result-cases (insert_device d db)) [
    | inl (db0, k) ↦ (db0, k, ground (arith, e, k))
    | inr (x, k) ↦ absurd (ground (arith, e, k))
  ]

  claim_found :
      claim_pairing sig now device_id code name key db ≡ ok (d, db1)
      → (p : Pairing) × (pairing_of_code sig code db ≡ some p)
  unfolding claim_pairing
  claim_found h = elim (Option-cases (pairing_of_code sig code db)) [
    | inl e ↦ absurd (ground (arith, e))
    | inr (p, e) ↦ (p, e)
  ]

  -- Whoever claims a pairing code: a session has the code, was unused and had time left; the key is
  -- a valid key that no device had; the new device is active and has this key; and no later call
  -- registers a device with the same code.
  pub claim_pairing_once :
      claim_pairing sig now device_id code name key db ≡ ok (d, db1)
      → ((p : Pairing) × (pairing_of_code sig code db ≡ some p)
          × (p.used_at ≡ none)
          × (now < p.expires_at))
        × (sig.valid_key key ≡ true)
        × (any (λ x. text_eq key x.public_key) db.devices ≡ false)
        × (d.is_active ≡ true)
        × (d.public_key ≡ key)
        × ((later id : ℕ) (other_name other_key : Text) (r : Device × AuthDb)
            → claim_pairing sig later id code other_name other_key db1 ≢ ok r)
  claim_pairing_once h =
      let (p, e) = claim_found h in
      let (unused, in_time, valid, active, own_key, fresh) = claim_parts p e h in
      let (db0, inserted, form) = claim_state p e h in
      let used : pairing_of_code sig code db1 ≡ some (record p { used_at = some now }) = rw form (
        pairing_of_code-use sig now code db0 p
          (pairing_of_code-insert sig code d db db0 inserted ∙ e)) in
      (
        (p, e, unused, in_time),
        valid,
        fresh,
        active,
        own_key,
        (λ later id n k r.
            claim_refused sig later id code n k db1 (record p { used_at = some now }) r used refl),
      )

module _ (now device_id : ℕ) (db db1 : AuthDb)
    (gone : revoke_device now device_id db ≡ ok (tt, db1)) where
  revoked_devices :
      db1.devices
      ≡ update_where
          (λ d. device_id == d.id && d.is_active)
          (λ d. record d { is_active = false; revoked_at = some now })
          db.devices
  revoked_devices = unfold revoke_device in ground arith

  -- the row of the revoked device is not active
  device_by_id-revoked : is_active_device (device_by_id device_id db1) ≡ false
  device_by_id-revoked = elim (Option-cases (device_by_id device_id db)) [
    | inl e ↦ rw (found, e) (unfold is_active_device in refl)
    | inr (d, e) ↦ rw (found, e) (unfold is_active_device in ground (arith, own_id d e))
  ]
    where
      found :
          device_by_id device_id db1
          ≡ Option.map
              (λ d.
                if device_id == d.id && d.is_active
                then record d { is_active = false; revoked_at = some now }
                else d)
              (device_by_id device_id db)
      found =
          unfold device_by_id in
          rw revoked_devices (update_where-find (λ d. device_id == d.id) _ _ db.devices (λ d. refl))

      own_id : (d : Device) → device_by_id device_id db ≡ some d → (device_id == d.id) ≡ true
      own_id d e = unfold device_by_id in find_first_holds (λ x. device_id == x.id) db.devices d e

  -- After `revoke_device` the device is locked out: whatever the time and the secrets presented, it
  -- gets no login challenge, no access token and no administrator token, none of its access tokens
  -- is accepted for any scope, and none of its action tokens is consumed.
  pub revoked_device_is_locked_out :
      (sig : Signatures) (later : ℕ)
      → ((id : ℕ) (nonce : Text) (ttl : ℤ) (r : Challenge × AuthDb)
          → create_challenge later id nonce device_id ttl db1 ≢ ok r)
        × ((x : Exchange) (r : AccessToken × AuthDb)
            → x.device_id ≡ device_id
            → exchange_token sig x db1 ≢ ok r)
        × ((x : AdminExchange) (r : ActionToken × AuthDb)
            → x.device_id ≡ device_id
            → exchange_admin_token sig x db1 ≢ ok r)
        × ((raw : ℕ) (scope : Text) (t : AccessToken)
            → token_of sig raw db1 ≡ some t
            → t.device_id ≡ device_id
            → verify_token sig later raw scope db1 ≡ err authentication_error)
        × ((raw : ℕ) (action resource : Text)
            → consume_action_token sig later raw device_id action resource db1
              ≡ err authorization_error)
  revoked_device_is_locked_out sig later = (
    (λ id nonce ttl r h. unfold create_challenge in ground (arith, device_by_id-revoked)),
    (λ x r same h. unfold exchange_token is_active_device in ground (arith, device_by_id-revoked)),
    (λ x r same h.
        unfold exchange_admin_token is_active_device in ground (arith, device_by_id-revoked)),
    (λ raw scope t e same.
        unfold verify_token is_active_device in ground (arith, e, device_by_id-revoked)),
    λ raw action resource. no_action_token raw action resource,
  )
    where
      no_action_token :
          (raw : ℕ) (action resource : Text)
          → consume_action_token sig later raw device_id action resource db1
            ≡ err authorization_error
      no_action_token raw action resource =
          elim (Option-cases (action_token_of sig raw device_id action resource db1)) [
            | inl e ↦ unfold consume_action_token in rw e
            | inr (t, e) ↦
                let (_, _, _, active) =
                  action_token_matches sig raw device_id action resource db1 t e in
                cc (active, device_by_id-revoked)
          ]
