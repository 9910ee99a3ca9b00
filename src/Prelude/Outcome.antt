-- ===== src/Prelude/Outcome.antt =====
-- The exceptions of psn_drive/errors.py, Python's and SQLite's that the modelled code raises, and calls
-- that may raise.
use Prim.Native.Nat.{ℕ}
use mathlib.Core.Path.{◌≡◌, refl}
use mathlib.Core.Logic.{◌⊎◌, inl, inr}
use mathlib.Core.Bool.{Bool, true, false}
use mathlib.Core.Option.{Option, none, some}

-- `drive_error` is the base class itself. The last lines are Python's own and SQLite's: ValueError,
-- TypeError, KeyError, AttributeError, IndexError, FileNotFoundError, FileExistsError, a statement that
-- violates a constraint of the schema, one with an argument of a type that SQLite does not take, and
-- one with an integer that SQLite does not take (OverflowError).
pub data DriveError : Type 0 where
  vault_not_initialized invalid_virtual_path file_not_found_in_vault integrity_error : DriveError
  quota_exceeded restore_conflict upload_conflict : DriveError
  upload_session_expired upload_session_not_found : DriveError
  authentication_error authorization_error pairing_error : DriveError
  rate_limit_exceeded http_client_error : ℕ → DriveError
  drive_error certificate_pin_error : DriveError
  sync_already_running service_already_running : DriveError
  value_error type_error key_error attribute_error index_error file_not_found file_exists :
      DriveError
  constraint_violated unsupported_argument overflow_error : DriveError

pub data Result {ℓ} (A : Type ℓ) : Type ℓ where
  ok : A → Result A
  err : DriveError → Result A

abbrev pub or_raise {ℓ} : {A : Type ℓ} → Option A → DriveError → Result A
or_raise none e = err e
or_raise (some a) e = ok a

abbrev pub raise_if : Bool → DriveError → Result (Unit {0})
raise_if true e = err e
raise_if false e = ok tt

-- A call that raises skips what follows it.
infixl 5 ◌>>=◌
abbrev pub ◌>>=◌ {ℓ κ} : {A : Type ℓ} {B : Type κ} → Result A → (A → Result B) → Result B
err raised >>= next = err raised
ok value >>= next = next value

infixl 5 ◌>>◌
abbrev pub ◌>>◌ {κ} : {B : Type κ} → Result (Unit {0}) → Result B → Result B
check >> next = check >>= λ done. next

pub ok-injective {ℓ} : {A : Type ℓ} {x y : A} → ok x ≡ ok y → x ≡ y
ok-injective h = cc

pub Result-cases {ℓ} :
    {A : Type ℓ} (r : Result A) → ((a : A) × (r ≡ ok a)) ⊎ ((e : DriveError) × (r ≡ err e))
Result-cases (ok a) = inl (a, refl)
Result-cases (err e) = inr (e, refl)

-- What a chain returns is what its second part returns on the value of the first.
pub >>=-eq-ok {ℓ κ} :
    {A : Type ℓ} {B : Type κ} (first : Result A) (next : A → Result B) {result : B}
    → (first >>= next) ≡ ok result
    → (value : A) × (first ≡ ok value) × (next value ≡ ok result)
>>=-eq-ok (ok value) next returned = (value, refl, returned)
>>=-eq-ok (err raised) next returned = cc

-- What a passed check leaves of the computation.
pub passed {ℓ} :
    {B : Type ℓ} (b : Bool) (e : DriveError) (next : Result B) {r : B}
    → (raise_if b e >> next) ≡ ok r
    → next ≡ ok r
passed true e next h = cc
passed false e next h = h
