-- ===== src/Http/Limiter.antt =====
-- `RateLimiter`: the times of the accepted requests, by client and bucket.
use personal_secure_node.Prelude.{
  ℕ, ◌+◌, ◌-◌, ◌/◌, Text, ◌&&◌, List, [], ◌∷◌, ◌++◌, Result, ok, err, index_error,
  rate_limit_exceeded, ltb, leb, if◌then◌else◌, text_eq, length,
}
use personal_secure_node.Auth.{seconds}

-- the loop of `popleft`; the times are those of the monotonic clock in microseconds
unfoldable pub drop_expired : ℕ → ℕ → List ℕ → List ℕ
drop_expired now window [] = []
drop_expired now window (t ∷ ts) =
    let rest = drop_expired now window ts in if leb (t + window) now then rest else t ∷ ts

-- `max(1, int(events[0] + window_seconds - now) + 1)`, in seconds
unfoldable pub retry_after : ℕ → ℕ → ℕ → ℕ
retry_after now window_seconds t =
    let n = (t + seconds window_seconds - now) / 1000000 + 1 in if ltb n 1 then 1 else n

-- `check` on the events of the key, whose expired ones it drops in any case
unfoldable pub check_events : ℕ → ℕ → ℕ → List ℕ → Result (Unit {0}) × List ℕ
unfolding drop_expired retry_after
check_events now limit window_seconds events =
    let kept = drop_expired now (seconds window_seconds) events in
    if leb limit (length kept)
    then (
      elim kept [
        | [] ↦ err index_error
        | t ∷ ts ↦ err (rate_limit_exceeded (retry_after now window_seconds t))
      ],
      kept,
    )
    else (ok tt, kept ++ now ∷ [])

pub record Bucket : Type 0 where
  pub client : Text
  pub name : Text
  pub events : List ℕ

abbrev pub Buckets : Type 0
Buckets = List Bucket

-- `self._events[key]`, a `defaultdict(deque)`
unfoldable pub check : ℕ → Text → Text → ℕ → ℕ → Buckets → Result (Unit {0}) × Buckets
check now client name limit window_seconds [] =
    let (r, events) = check_events now limit window_seconds [] in
    (r, record { client = client; name = name; events = events } ∷ [])
check now client name limit window_seconds (b ∷ bs) =
    let (r, bs') = check now client name limit window_seconds bs in
    let (q, events) = check_events now limit window_seconds b.events in
    if text_eq client b.client && text_eq name b.name
    then (q, record b { events = events } ∷ bs)
    else (r, b ∷ bs')
