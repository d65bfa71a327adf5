-- ===== src/Security/Claims.antt =====
-- The JSON values of a bearer token as Python holds them (`json.loads` of app/security.py), and what
-- the code asks of one: `get`, comparison with a text, `int()` and truth. Of a float and of an array
-- only what these read is kept.
use ioka.Prelude.{
  ℕ, String, Bool, true, false, not, Option, none, some, ◌==◌, if◌then◌else◌, leb, eqb,
}
use ioka.Prelude.Int.{ℤ, pos, negsuc}
use ioka.Exceptions.{Result, ok, err, error, authentication, or_raise}

mutual
  pub data Claim : Type 0 where
    null : Claim
    text : String → Claim
    integer : ℤ → Claim
    boolean : Bool → Claim
    -- the whole part, if it is finite, and whether it is zero
    real : Option ℤ → Bool → Claim
    -- whether it is empty
    array : Bool → Claim
    object : Claims → Claim

  pub data Claims : Type 0 where
    nil : Claims
    claim : String → Claim → Claims → Claims

abbrev pub lookup : String → Claims → Option Claim
lookup name nil = none
lookup name (claim other value rest) =
    let later = lookup name rest in if other == name then some value else later

-- What every other exception becomes.
abbrev pub malformed {ℓ} : {A : Type ℓ} → Result A
malformed = err (error authentication "Malformed bearer token")

abbrev pub or_malformed {ℓ} : {A : Type ℓ} → Option A → Result A
or_malformed found = or_raise found (error authentication "Malformed bearer token")

-- Only an object has the method `get`.
abbrev pub as_dict : Claim → Result Claims
as_dict (object claims) = ok claims
as_dict _ = malformed

-- `value == s` for a value that may be missing
abbrev pub is_claim : String → Option Claim → Bool
is_claim s (some (text t)) = t == s
is_claim s _ = false

abbrev pub is_zero : ℤ → Bool
is_zero (pos n) = eqb n 0
is_zero (negsuc n) = false

abbrev pub is_nil : Claims → Bool
is_nil nil = true
is_nil (claim name value rest) = false

-- Python's truth
abbrev pub is_truthy : Option Claim → Bool
is_truthy none = false
is_truthy (some null) = false
is_truthy (some (text s)) = not (s == "")
is_truthy (some (integer n)) = not (is_zero n)
is_truthy (some (boolean b)) = b
is_truthy (some (real whole zero)) = not zero
is_truthy (some (array empty)) = not empty
is_truthy (some (object claims)) = not (is_nil claims)

-- `int(value)`, where `int_of` reads a text; `int(payload.get("exp", 0))` is 0 where it is missing.
abbrev pub int_of_claim : (String → Option ℤ) → Option Claim → Option ℤ
int_of_claim int_of none = some (pos 0)
int_of_claim int_of (some (text s)) = int_of s
int_of_claim int_of (some (integer n)) = some n
int_of_claim int_of (some (boolean b)) = some (pos (if b then 1 else 0))
int_of_claim int_of (some (real whole zero)) = whole
int_of_claim int_of (some _) = none

-- `n <= now`
abbrev pub at_most : ℤ → ℕ → Bool
at_most (pos n) now = leb n now
at_most (negsuc n) now = true
