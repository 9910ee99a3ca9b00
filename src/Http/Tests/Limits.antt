-- ===== src/Http/Tests/Limits.antt =====
-- Four calls under a rate limit: the theorems on the limiter at them.
use personal_secure_node.Prelude.{
  ℕ, ◌+◌, ◌≤◌, ◌≡◌, refl, List, [], ◌∷◌, Result, ok, err, rate_limit_exceeded, DriveError, length,
  arith,
}
use personal_secure_node.Auth.{seconds}
use personal_secure_node.Http.Limiter.{check_events, drop_expired, retry_after}
use personal_secure_node.Http.Rates.{
  accepted, log_accepted, inside, accepted-log_accepted, accepted-inside,
}
use personal_secure_node.Http.Retry.{check_events-retry}

-- Three calls in a second and one a minute later, with a limit of two in a minute.
abbrev calls : List ℕ
calls = 0 ∷ 400000 ∷ 900000 ∷ 60400000 ∷ []

accepted-log_accepted_example : accepted 2 60 [] calls ≡ log_accepted 2 (seconds 60) [] calls
accepted-log_accepted_example =
    accepted-log_accepted 2 60 calls (omega arith)
      (omega arith, (omega arith, (omega arith, (omega arith, tt))))

accepted-inside_example : inside 100 (seconds 60) (accepted 2 60 [] calls) ≤ 2
accepted-inside_example =
    accepted-inside 2 60 100 calls (omega arith)
      (omega arith, (omega arith, (omega arith, (omega arith, tt))))

abbrev third : Result (Unit {0}) × List ℕ
third = check_events 900000 2 60 (0 ∷ 400000 ∷ [])

check_events-retry_example :
    (length third.1 ≤ 2)
    × ((raised : DriveError)
        → third.0 ≡ err raised
        → (wait : ℕ) × (raised ≡ rate_limit_exceeded wait)
          × (1 ≤ wait)
          × ((later : ℕ)
              → 900000 + seconds wait ≤ later
              → (check_events later 2 60 third.1).0 ≡ ok tt))
check_events-retry_example =
    check_events-retry 900000 2 60 (0 ∷ 400000 ∷ []) (omega arith) (omega arith)

third_call :
    (accepted 2 60 [] calls ≡ 0 ∷ 400000 ∷ 60400000 ∷ []) × (third.0 ≡ err (rate_limit_exceeded 60))
unfolding accepted check_events drop_expired retry_after
third_call = (refl, refl)
