-- ===== src/Auth/Safety.antt =====
-- Single use of challenges and tokens: `consume_action_token` and `exchange_token`.

use personal_secure_node.Prelude.{
  ℕ, ◌<◌, ◌≡◌, ◌≢◌, refl, ◌∙◌, Text, true, none, some, ok, err, arith, authorization_error, ◌==◌,
  ==_refl, text_eq_iff, find_first_holds, update_where-find, Option-cases, inl, inr,
}
use personal_secure_node.Auth.{
  Signatures, Device, Challenge, AccessToken, ActionToken, AuthDb, device_by_id, is_active_device,
}
use personal_secure_node.Auth.Tokens.{
  Exchange, challenge_message, challenge_of, use_challenge, insert_token, exchange_token,
}
use personal_secure_node.Auth.Admin.{action_token_of, use_action_token, consume_action_token}

-- A token that is spent is found again as spent.
action_token_of-use :
    (sig : Signatures) (now raw device : ℕ) (action resource : Text) (db : AuthDb) (t : ActionToken)
    → action_token_of sig raw device action resource db ≡ some t
    → action_token_of sig raw device action resource (use_action_token now t.id db)
      ≡ some (record t { used_at = some now })
unfolding action_token_of use_action_token device_by_id
action_token_of-use sig now raw device action resource db t h =
    update_where-find _ (λ u. t.id == u.id) (λ u. record u { used_at = some now }) db.action_tokens
      (λ u. refl)
    ∙ rw h (rw ==_refl)

pub action_token_matches :
    (sig : Signatures) (raw device : ℕ) (action resource : Text) (db : AuthDb) (t : ActionToken)
    → action_token_of sig raw device action resource db ≡ some t
    → (t.device_id ≡ device)
      × (t.action ≡ action)
      × (t.resource ≡ resource)
      × (is_active_device (device_by_id device db) ≡ true)
unfolding action_token_of
action_token_matches sig raw device action resource db t h = ground (
  arith,
  find_first_holds _ db.action_tokens t h,
  text_eq_iff action t.action,
  text_eq_iff resource t.resource,
)

module _ (sig : Signatures) (now raw device : ℕ) (action resource : Text) (db db1 : AuthDb) where
  consume_parts :
      (t : ActionToken)
      → action_token_of sig raw device action resource db ≡ some t
      → consume_action_token sig now raw device action resource db ≡ ok (tt, db1)
      → (t.used_at ≡ none) × (now < t.expires_at) × (db1 ≡ use_action_token now t.id db)
  unfolding consume_action_token
  consume_parts t e h = ground (arith, e)

  -- What a consumption changes: the row that is found is marked as used.
  pub consume_action_token-marks :
      (t : ActionToken)
      → action_token_of sig raw device action resource db ≡ some t
      → consume_action_token sig now raw device action resource db ≡ ok (tt, db1)
      → db1 ≡ use_action_token now t.id db
  consume_action_token-marks t e h = let (unused, in_time, form) = consume_parts t e h in form

  consume_again :
      (t : ActionToken) (later : ℕ)
      → action_token_of sig raw device action resource db ≡ some t
      → consume_action_token sig later raw device action resource (use_action_token now t.id db)
        ≡ err authorization_error
  unfolding consume_action_token
  consume_again t later e = rw (action_token_of-use sig now raw device action resource db t e)

  -- Whoever consumes an administrator's action token: a row of the table is for exactly this device,
  -- action and resource, was unused and had time left; the device is active; and a second
  -- consumption of the same token is refused, whenever it is tried.
  pub consume_action_token_once :
      consume_action_token sig now raw device action resource db ≡ ok (tt, db1)
      → ((t : ActionToken) × (action_token_of sig raw device action resource db ≡ some t)
          × (t.device_id ≡ device)
          × (t.action ≡ action)
          × (t.resource ≡ resource)
          × (t.used_at ≡ none)
          × (now < t.expires_at))
        × (is_active_device (device_by_id device db) ≡ true)
        × ((later : ℕ)
            → consume_action_token sig later raw device action resource db1
              ≡ err authorization_error)
  consume_action_token_once h =
      elim (Option-cases (action_token_of sig raw device action resource db)) [
        | inl e ↦ cc (absent e)
        | inr (t, e) ↦
            let (unused, in_time, form) = consume_parts t e h in
            let (d, a, r, active) = action_token_matches sig raw device action resource db t e in
            ((t, e, d, a, r, unused, in_time), active, (λ later. rw form (consume_again t later e)))
      ]
    where
      absent :
          action_token_of sig raw device action resource db ≡ none
          → consume_action_token sig now raw device action resource db ≡ err authorization_error
      absent e = unfold consume_action_token in rw e

-- A challenge that is used is found again as used.
challenge_of-use :
    (now id device : ℕ) (db : AuthDb) (c : Challenge)
    → challenge_of id device db ≡ some c
    → challenge_of id device (use_challenge now id db) ≡ some (record c { used_at = some now })
unfolding challenge_of use_challenge
challenge_of-use now id device db c h =
    update_where-find _ (λ u. id == u.id) (λ u. record u { used_at = some now }) db.auth_challenges
      (λ u. refl)
    ∙ rw h (rw same)
  where
    same : (id == c.id) ≡ true
    same = ground (arith, find_first_holds _ db.auth_challenges c h)

challenge_of-insert :
    (t : AccessToken) (db db1 : AuthDb)
    → insert_token t db ≡ ok db1
    → (id device : ℕ) → challenge_of id device db1 ≡ challenge_of id device db
unfolding insert_token challenge_of
challenge_of-insert t db db1 h id device = ground arith

module _ (sig : Signatures) (x : Exchange) (db db1 : AuthDb) (t : AccessToken) where
  exchange_parts :
      (d : Device) (c : Challenge)
      → device_by_id x.device_id db ≡ some d
      → challenge_of x.challenge_id x.device_id db ≡ some c
      → exchange_token sig x db ≡ ok (t, db1)
      → (d.is_active ≡ true)
        × (c.used_at ≡ none)
        × (x.now < c.expires_at)
        × (sig.verify d.public_key x.signature (challenge_message sig x.challenge_id c.nonce)
            ≡ true)
        × (insert_token t (use_challenge x.now x.challenge_id db) ≡ ok db1)
  unfolding exchange_token
  exchange_parts d c e f h = ground (arith, e, f)

  exchange_found :
      exchange_token sig x db ≡ ok (t, db1)
      → (d : Device) × (c : Challenge) × (device_by_id x.device_id db ≡ some d)
        × (challenge_of x.challenge_id x.device_id db ≡ some c)
  unfolding exchange_token
  exchange_found h = elim (Option-cases (device_by_id x.device_id db)) [
    | inl e ↦ absurd (no_device e)
    | inr (d, e) ↦ elim (Option-cases (challenge_of x.challenge_id x.device_id db)) [
      | inl f ↦ absurd (no_challenge d e f)
      | inr (c, f) ↦ (d, c, e, f)
    ]
  ]
    where
      no_device : device_by_id x.device_id db ≡ none → ⊥
      no_device e = ground (arith, e)

      no_challenge :
          (d : Device)
          → device_by_id x.device_id db ≡ some d
          → challenge_of x.challenge_id x.device_id db ≡ none
          → ⊥
      no_challenge d e f = ground (arith, e, f)

  -- Whoever exchanges a challenge for an access token: the device is known and active, the challenge
  -- was issued to it, was unused and had time left, and the signature on the challenge's message
  -- verifies under the device's key; and the same challenge buys no second token, whatever the
  -- signature, the scopes and the time of the second call.
  pub exchange_token_once :
      exchange_token sig x db ≡ ok (t, db1)
      → ((d : Device) × (c : Challenge) × (device_by_id x.device_id db ≡ some d)
          × (challenge_of x.challenge_id x.device_id db ≡ some c)
          × (d.is_active ≡ true)
          × (c.used_at ≡ none)
          × (x.now < c.expires_at)
          × (sig.verify d.public_key x.signature (challenge_message sig x.challenge_id c.nonce)
              ≡ true))
        × ((y : Exchange) (r : AccessToken × AuthDb)
            → y.device_id ≡ x.device_id
            → y.challenge_id ≡ x.challenge_id
            → exchange_token sig y db1 ≢ ok r)
  exchange_token_once h =
      let (d, c, e, f) = exchange_found h in
      let (active, unused, in_time, verified, inserted) = exchange_parts d c e f h in
      (
        (d, c, e, f, active, unused, in_time, verified),
        λ y r same_device same_challenge again. spent y r same_device same_challenge again c (
            challenge_of-insert t _ db1 inserted x.challenge_id x.device_id
            ∙ challenge_of-use x.now x.challenge_id x.device_id db c f),
      )
    where
      spent :
          (y : Exchange) (r : AccessToken × AuthDb)
          → y.device_id ≡ x.device_id
          → y.challenge_id ≡ x.challenge_id
          → exchange_token sig y db1 ≡ ok r
          → (c : Challenge)
          → challenge_of x.challenge_id x.device_id db1 ≡ some (record c { used_at = some x.now })
          → ⊥
      spent y r sd sc again c used = unfold exchange_token in ground (arith, used)
