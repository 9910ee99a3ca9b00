-- ===== src/Http/Retry.antt =====
-- What the rate limiter promises in its refusals: when to try again.
use personal_secure_node.Prelude.{
  ℕ, ◌+◌, ◌≤◌, true, false, List, [], ◌∷◌, Result, ok, err, DriveError, rate_limit_exceeded,
  index_error, leb, length, length-append, ◌≡◌, refl, arith, Bool-cases, inl, inr,
}
use personal_secure_node.Auth.{seconds}
use personal_secure_node.Http.Limiter.{drop_expired, retry_after, check_events}

drop_expired-length :
    (now window : ℕ) (ts : List ℕ) → length (drop_expired now window ts) ≤ length ts
unfolding drop_expired
drop_expired-length now window [] = omega arith
drop_expired-length now window (t ∷ ts) = ground (arith, drop_expired-length now window ts)

retry_after-late :
    (now w t : ℕ) → t + seconds w ≤ now + seconds (retry_after now w t) × 1 ≤ retry_after now w t
unfolding retry_after
retry_after-late now w t = ground arith

-- the events of a refused call
refused-retry :
    (now limit w : ℕ) (kept : List ℕ)
    → 1 ≤ limit
    → length kept ≤ limit
    → leb limit (length kept) ≡ true
    → (wait : ℕ) × (◌≡◌ {A = Result (Unit {0})}
        (elim kept [
          | [] ↦ err index_error
          | t ∷ ts ↦ err (rate_limit_exceeded (retry_after now w t))
        ])
        (err (rate_limit_exceeded wait)))
      × (1 ≤ wait)
      × ((later : ℕ) → now + seconds wait ≤ later → (check_events later limit w kept).0 ≡ ok tt)
unfolding check_events drop_expired
refused-retry now limit w [] positive few full = cc (absurd limit positive full)
  where
    absurd : (n : ℕ) → 1 ≤ n → leb n 0 ≡ true → true ≡ false
    absurd n p q = ground arith
refused-retry now limit w (t ∷ ts) positive few full =
    let (late, least) = retry_after-late now w t in
    (
      retry_after now w t,
      refl,
      least,
      λ later waited. ground (arith, late, drop_expired-length later (seconds w) ts),
    )

-- A key that holds no more events than its limit, as one without events does and as every check
-- leaves it, refuses a call only with the number of seconds to wait, at least one: a call of the
-- same key after this wait, with none in between, is accepted.
pub check_events-retry :
    (now limit w : ℕ) (events : List ℕ)
    → 1 ≤ limit
    → length events ≤ limit
    → (length (check_events now limit w events).1 ≤ limit)
      × ((raised : DriveError)
          → (check_events now limit w events).0 ≡ err raised
          → (wait : ℕ) × (raised ≡ rate_limit_exceeded wait)
            × (1 ≤ wait)
            × ((later : ℕ)
                → now + seconds wait ≤ later
                → (check_events later limit w (check_events now limit w events).1).0 ≡ ok tt))
unfolding check_events
check_events-retry now limit w events positive few =
    elim (Bool-cases (leb limit (length (drop_expired now (seconds w) events)))) [
      | inl full ↦
          let (wait, raises, least, later) =
            refused-retry now limit w (drop_expired now (seconds w) events) positive
              (omega (arith, shorter, few)) full in
          rw full (omega (arith, shorter, few), λ raised h. (wait, cc (h, raises), least, later))
      | inr free ↦ rw free (rw length-append (ground arith), λ raised h. cc)
    ]
  where
    shorter : length (drop_expired now (seconds w) events) ≤ length events
    shorter = drop_expired-length now (seconds w) events
