-- ===== src/Auth/Seen.antt =====
-- What `verify_token` leaves of the action tokens: it writes `last_seen_at` of a device.
use personal_secure_node.Prelude.{
  ℕ, Text, Option, none, some, List, ok, ◌≡◌, refl, ap, ◌∙◌, ◌&&◌, ◌==◌, text_eq, find_first,
  update_where-find, arith, if◌then◌else◌, Option-cases, inl, inr,
}
use mathlib.Core.Option
use personal_secure_node.Auth.{
  Signatures, Device, ActionToken, AuthDb, device_by_id, is_active_device,
}
use personal_secure_node.Auth.Tokens.{see_device, token_of, verify_token}
use personal_secure_node.Auth.Admin.{action_token_of}

-- A device that is seen is as active as before.
is_active_device-see_device :
    (now id other : ℕ) (db : AuthDb)
    → is_active_device (device_by_id other (see_device now id db))
      ≡ is_active_device (device_by_id other db)
unfolding device_by_id see_device is_active_device
is_active_device-see_device now id other db =
    rw
      (update_where-find (λ d. other == d.id) (λ d. id == d.id)
        (λ (d : Device). record d { last_seen_at = some now }) db.devices (λ d. refl))
      (go (find_first (λ d. other == d.id) db.devices))
  where
    go :
        (o : Option Device)
        → is_active_device (
            Option.map
              (λ (d : Device). if id == d.id then record d { last_seen_at = some now } else d)
              o)
          ≡ is_active_device o
    go none = refl
    go (some d) = ground arith

action_token_of-see_device :
    (sig : Signatures) (now id raw device : ℕ) (action resource : Text) (db : AuthDb)
    → action_token_of sig raw device action resource (see_device now id db)
      ≡ action_token_of sig raw device action resource db
unfolding action_token_of see_device
action_token_of-see_device sig now id raw device action resource db = λ i.
    find_first
      (λ (t : ActionToken).
        sig.hash raw == t.token_hash
        && device == t.device_id
        && text_eq action t.action
        && text_eq resource t.resource
        && is_active_device-see_device now id t.device_id db i)
      db.action_tokens

verify_token-sees :
    (sig : Signatures) (now token : ℕ) (scope : Text) (found : Device × List Text) (db db1 : AuthDb)
    → verify_token sig now token scope db ≡ ok (found, db1)
    → (id : ℕ) × (db1 ≡ see_device now id db)
unfolding verify_token
verify_token-sees sig now token scope found db db1 h = elim (Option-cases (token_of sig token db)) [
  | inl e ↦ cc (rw e at h)
  | inr (t, e) ↦ (t.device_id, ground (arith, e, h))
]

-- Whoever logs in finds the action token that was found before.
pub action_token_of-verify_token :
    (sig : Signatures) (now token : ℕ) (scope : Text) (found : Device × List Text) (db db1 : AuthDb)
    (raw device : ℕ) (action resource : Text)
    → verify_token sig now token scope db ≡ ok (found, db1)
    → action_token_of sig raw device action resource db1
      ≡ action_token_of sig raw device action resource db
action_token_of-verify_token sig now token scope found db db1 raw device action resource h =
    let (id, seen) = verify_token-sees sig now token scope found db db1 h in
    ap (λ a. action_token_of sig raw device action resource a) seen
    ∙ action_token_of-see_device sig now id raw device action resource db
