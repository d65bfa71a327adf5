-- ===== src/Exceptions.antt =====
-- app/exceptions.py: the classes of `AppError`, their attributes, and the other exceptions that
-- leave a service: the database's `IntegrityError` and a `RuntimeError`. A service call is a result
-- beside the database that it leaves.
use ioka.Prelude.{ℕ, String, Bool, true, false, Option, none, some, ◌≡◌, refl}
use ioka.Json.{Fields, nil}

pub data ErrorClass : Type 0 where
  app_error not_found conflict authentication insufficient_balance : ErrorClass
  provider_error provider_timeout : ErrorClass

pub record AppError : Type 0 where
  pub class : ErrorClass
  pub message : String
  pub details : Fields

abbrev pub status_code : ErrorClass → ℕ
status_code app_error = 400
status_code not_found = 404
status_code conflict = 409
status_code authentication = 401
status_code insufficient_balance = 422
status_code provider_error = 502
status_code provider_timeout = 504

abbrev pub code : ErrorClass → String
code app_error = "application_error"
code not_found = "not_found"
code conflict = "conflict"
code authentication = "authentication_failed"
code insufficient_balance = "insufficient_balance"
code provider_error = "provider_error"
code provider_timeout = "provider_timeout"

pub data Exception : Type 0 where
  app : AppError → Exception
  integrity_error : Exception
  runtime_error : String → Exception
  key_error : String → Exception
  -- of a number that C cannot hold
  overflow_error : Exception
  -- of a value that the database's driver cannot bind
  statement_error : Exception
  -- what the broker's library raises
  connection_error : Exception

pub data Result {ℓ} (A : Type ℓ) : Type ℓ where
  ok : A → Result A
  err : Exception → Result A

-- `raise Class("message")`
abbrev pub error : ErrorClass → String → Exception
error c m = app (record { class = c; message = m; details = nil })

-- Statements in sequence: an exception leaves the block.
abbrev pub ◌>>=◌ {ℓ κ} : {A : Type ℓ} {B : Type κ} → Result A → (A → Result B) → Result B
err raised >>= rest = err raised
ok value >>= rest = rest value

abbrev pub ◌>>◌ {ℓ} : {B : Type ℓ} → Result (Unit {0}) → Result B → Result B
test >> rest = test >>= λ done. rest

infixl 5 ◌>>=◌ ◌>>◌
-- `if test: raise e`
abbrev pub raise_if : Bool → Exception → Result (Unit {0})
raise_if true e = err e
raise_if false e = ok tt

-- `if not row: raise e`
abbrev pub or_raise {ℓ} : {A : Type ℓ} → Option A → Exception → Result A
or_raise none e = err e
or_raise (some a) e = ok a

-- A block that returned passed its tests, and found its rows.
module _ {ℓ} {B : Type ℓ} where
  pub ok-injective : (x y : B) → ok x ≡ ok y → x ≡ y
  ok-injective x y h = cc

  pub raise_if-ok :
      (b : Bool) (e : Exception) (m : Result B) {x : B}
      → (raise_if b e >> m) ≡ ok x
      → (b ≡ false) × (m ≡ ok x)
  raise_if-ok true e m h = cc
  raise_if-ok false e m h = (refl, h)

  pub or_raise-ok {κ} :
      {A : Type κ} (o : Option A) (e : Exception) (f : A → Result B) {x : B}
      → (or_raise o e >>= f) ≡ ok x
      → (a : A) × (o ≡ some a) × (f a ≡ ok x)
  or_raise-ok none e f h = cc
  or_raise-ok (some a) e f h = (a, refl, h)

  pub bind-ok {κ} :
      {A : Type κ} (m : Result A) (f : A → Result B) {x : B}
      → (m >>= f) ≡ ok x
      → (a : A) × (m ≡ ok a) × (f a ≡ ok x)
  bind-ok (ok a) f h = (a, refl, h)
  bind-ok (err e) f h = cc
