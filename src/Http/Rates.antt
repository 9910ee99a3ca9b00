-- ===== src/Http/Rates.antt =====
-- What the rate limiter promises of one key: a comparison with a log of all accepted requests, and
-- the bound on every window.
use personal_secure_node.Prelude.{
  ℕ, ◌+◌, ◌≤◌, ◌<◌, true, false, ◌&&◌, List, [], ◌∷◌, ◌++◌, Result, ok, err, DriveError,
  rate_limit_exceeded, index_error, ltb, leb, if◌then◌else◌, select, select-append, length,
  length-append, All, All-append, All-map, ◌≡◌, refl, ap, ◌∙◌, arith, Bool-cases, inl, inr,
}
use personal_secure_node.Auth.{seconds}
use personal_secure_node.Http.Limiter.{drop_expired, retry_after, check_events}

-- the times of the calls that are accepted, from the key's events and the times of all calls
unfoldable pub accepted : ℕ → ℕ → List ℕ → List ℕ → List ℕ
accepted limit window_seconds events [] = []
accepted limit window_seconds events (now ∷ calls) =
    let (r, events') = check_events now limit window_seconds events in
    let rest = accepted limit window_seconds events' calls in
    elim r [ ok done ↦ now ∷ rest | err e ↦ rest ]

-- the times of a log that a window which ends now reaches back to
unfoldable pub recent : ℕ → ℕ → List ℕ → List ℕ
recent now window log = select (λ t. ltb now (t + window)) log

-- The reference: every accepted call stays in the log, and a call is accepted while the window that
-- ends with it has fewer than `limit` of them.
unfoldable pub log_accepted : ℕ → ℕ → List ℕ → List ℕ → List ℕ
unfolding recent
log_accepted limit window log [] = []
log_accepted limit window log (now ∷ calls) =
    let refused = log_accepted limit window log calls in
    let rest = log_accepted limit window (log ++ now ∷ []) calls in
    if ltb (length (recent now window log)) limit then now ∷ rest else refused

-- the times are in order, the first not before `from`
abbrev pub Ascending : ℕ → List ℕ → Type 0
Ascending from [] = Unit
Ascending from (t ∷ ts) = from ≤ t × Ascending t ts

recent-all :
    (now window x : ℕ) (ts : List ℕ) → Ascending x ts → now < x + window → recent now window ts ≡ ts
unfolding recent select
recent-all now window x [] h e = refl
recent-all now window x (t ∷ ts) h e =
    let tail = recent-all now window t ts h.1 (omega (arith, h.0)) in ground (arith, h.0, tail)

drop_expired-recent :
    (last now window from : ℕ) (log : List ℕ)
    → Ascending from log
    → last ≤ now
    → drop_expired now window (recent last window log) ≡ recent now window log
unfolding recent select drop_expired
drop_expired-recent last now window from [] h e = refl
drop_expired-recent last now window from (t ∷ ts) h e =
    let tail = drop_expired-recent last now window t ts h.1 e in
    ground (arith, tail, recent-all last window t ts h.1, recent-all now window t ts h.1)

Ascending-snoc :
    (from now : ℕ) (log : List ℕ)
    → Ascending from log
    → All (λ t. t ≤ now) log
    → from ≤ now
    → Ascending from (log ++ now ∷ [])
Ascending-snoc from now [] h k e = (e, tt)
Ascending-snoc from now (t ∷ ts) h k e = (h.0, Ascending-snoc t now ts h.1 k.1 k.0)

recent-snoc :
    (now window : ℕ) (log : List ℕ)
    → 1 ≤ window
    → recent now window (log ++ now ∷ []) ≡ recent now window log ++ now ∷ []
unfolding recent select
recent-snoc now window log h = rw select-append (ground arith)

refusal :
    (now limit w : ℕ) (kept : List ℕ)
    → (raised : DriveError) × (◌≡◌ {A = Result (Unit {0})}
        (elim kept [
          | [] ↦ err index_error
          | t ∷ ts ↦ err (rate_limit_exceeded (retry_after now w t))
        ])
        (err raised))
refusal now limit w [] = (index_error, refl)
refusal now limit w (t ∷ ts) = (rate_limit_exceeded (retry_after now w t), refl)

-- One call, where the events are those of the log that the window reaches back to.
module _ (limit w last now : ℕ) (log : List ℕ) (h : Ascending 0 log) (e : last ≤ now) where
  check_events-accept :
      1 ≤ w
      → ltb (length (recent now (seconds w) log)) limit ≡ true
      → check_events now limit w (recent last (seconds w) log)
        ≡ (ok tt, recent now (seconds w) (log ++ now ∷ []))
  unfolding check_events
  check_events-accept positive free =
      rw
        (
          drop_expired-recent last now (seconds w) 0 log h e,
          recent-snoc now (seconds w) log (omega arith),
        )
        (ground arith)

  check_events-refuse :
      ltb (length (recent now (seconds w) log)) limit ≡ false
      → (raised : DriveError) × (check_events now limit w (recent last (seconds w) log)
          ≡ (err raised, recent now (seconds w) log))
  unfolding check_events
  check_events-refuse full = rw (drop_expired-recent last now (seconds w) 0 log h e) (
      let (raised, is_err) = refusal now limit w (recent now (seconds w) log) in
      (raised, ground (arith, is_err)))

accepted-ok :
    (limit w now : ℕ) (events events' calls : List ℕ)
    → check_events now limit w events ≡ (ok tt, events')
    → accepted limit w events (now ∷ calls) ≡ now ∷ accepted limit w events' calls
unfolding accepted
accepted-ok limit w now events events' calls h = rw (h, accepted) (rw h refl)

accepted-err :
    (limit w now : ℕ) (events events' calls : List ℕ) (raised : DriveError)
    → check_events now limit w events ≡ (err raised, events')
    → accepted limit w events (now ∷ calls) ≡ accepted limit w events' calls
unfolding accepted
accepted-err limit w now events events' calls raised h = rw (h, accepted) (rw h refl)

accepted-recent :
    (limit w last : ℕ) (log calls : List ℕ)
    → 1 ≤ w
    → Ascending 0 log
    → All (λ t. t ≤ last) log
    → Ascending last calls
    → accepted limit w (recent last (seconds w) log) calls
      ≡ log_accepted limit (seconds w) log calls
unfolding accepted log_accepted
accepted-recent limit w last log [] positive h k c = refl
accepted-recent limit w last log (now ∷ calls) positive h k c =
    elim (Bool-cases (ltb (length (recent now (seconds w) log)) limit)) [
      | inl free ↦ rw free (
          accepted-ok limit w now _ _ calls
            (check_events-accept limit w last now log h c.0 positive free)
          ∙ ap (λ ts. now ∷ ts)
              (accepted-recent limit w now (log ++ now ∷ []) calls positive
                (Ascending-snoc 0 now log h until (omega arith))
                (All-append _ log (now ∷ []) until (omega arith, tt)) c.1))
      | inr full ↦
          let (raised, refused) = check_events-refuse limit w last now log h c.0 full in
          rw full (
            accepted-err limit w now _ _ calls raised refused
            ∙ accepted-recent limit w now log calls positive h until c.1)
    ]
  where
    until : All (λ t. t ≤ now) log
    until = All-map _ _ log (λ t b. omega (arith, c.0, b)) k

-- Calls at times in order: with a window of at least a second, the rate limiter accepts exactly the
-- calls that the reference accepts, which keeps all accepted calls and counts those in the window.
pub accepted-log_accepted :
    (limit w : ℕ) (calls : List ℕ)
    → 1 ≤ w
    → Ascending 0 calls
    → accepted limit w [] calls ≡ log_accepted limit (seconds w) [] calls
unfolding recent select
accepted-log_accepted limit w calls positive c = accepted-recent limit w 0 [] calls positive tt tt c

-- how many times are after `from` and at most the window's length later
abbrev pub inside : ℕ → ℕ → List ℕ → ℕ
inside from window ts = length (select (λ t. ltb from t && leb t (from + window)) ts)

inside-recent :
    (from now window : ℕ) (log : List ℕ)
    → now ≤ from + window
    → inside from window log ≤ length (recent now window log)
unfolding recent select
inside-recent from now window [] h = omega arith
inside-recent from now window (t ∷ ts) h = ground (arith, inside-recent from now window ts h)

inside-append :
    (from window : ℕ) (xs ys : List ℕ)
    → inside from window (xs ++ ys) ≡ inside from window xs + inside from window ys
inside-append from window xs ys = rw select-append (length-append (select _ xs) _)

inside-log_accepted :
    (from limit window : ℕ) (log calls : List ℕ)
    → inside from window log ≤ limit
    → inside from window log + inside from window (log_accepted limit window log calls) ≤ limit
unfolding log_accepted select
inside-log_accepted from limit window log [] h = omega (arith, h)
inside-log_accepted from limit window log (now ∷ calls) h = ground (
  arith,
  inside-recent from now window log,
  inside-append from window log (now ∷ []),
  inside-log_accepted from limit window log calls h,
  inside-log_accepted from limit window (log ++ now ∷ []) calls,
)

-- Calls at times in order: with a window of at least a second, no span of the window's length,
-- wherever it starts, has more accepted calls than the limit.
pub accepted-inside :
    (limit w from : ℕ) (calls : List ℕ)
    → 1 ≤ w
    → Ascending 0 calls
    → inside from (seconds w) (accepted limit w [] calls) ≤ limit
unfolding select
accepted-inside limit w from calls positive c =
    rw (accepted-log_accepted limit w calls positive c)
      (omega (arith, inside-log_accepted from limit (seconds w) [] calls (omega arith)))
