-- ===== src/Security/Password.antt =====
-- `hash_password` and `verify_password` of app/security.py. `hashlib.pbkdf2_hmac` and Python's
-- `int` of a text are parameters; so is the salt that `secrets.token_bytes` draws.
pub mod Verify
use Prim.Native.String as Text
use ioka.Prelude.{
  ℕ, String, Bool, false, not, Option, none, some, List, [], ◌∷◌, ◌==◌, ◌≡◌, if◌then◌else◌,
}
use ioka.Prelude.Int.{ℤ, pos}
use ioka.Bytes.{Bytes, IsBytes, encode, split}
use ioka.Security.Base64.{b64encode, b64decode}
use ioka.Exceptions.{Result, ok, err, overflow_error}

-- What a derivation does; it raises on a count of iterations that is not positive or too large.
pub data Derived : Type 0 where
  derived : Bytes → Derived
  value_error too_large : Derived

pub record Hashlib : Type 0 where
  -- `hashlib.pbkdf2_hmac("sha256", password, salt, iterations)`
  pub pbkdf2_hmac : Bytes → Bytes → ℤ → Derived
  -- `int(text)`, `none` where it raises a `ValueError`
  pub int_of : String → Option ℤ

abbrev pub pbkdf2_iterations : ℤ
pbkdf2_iterations = pos 310000

-- What is relied on of them.
pub record HashlibLaws (lib : Hashlib) : Type 0 where
  pub derives :
      (password salt : Bytes)
      → (digest : Bytes) × IsBytes digest
        × (lib.pbkdf2_hmac password salt pbkdf2_iterations ≡ derived digest)
  pub int_of_iterations : lib.int_of "310000" ≡ some pbkdf2_iterations

-- `f"pbkdf2_sha256${PBKDF2_ITERATIONS}${...}${...}"`
abbrev pub encoded_hash : Bytes → Bytes → String
encoded_hash salt digest = Text.◌++◌ "pbkdf2_sha256" (
    Text.◌∷◌ "$" (
      Text.◌++◌ "310000"
        (Text.◌∷◌ "$" (Text.◌++◌ (b64encode salt) (Text.◌∷◌ "$" (b64encode digest))))))

abbrev pub encode_derived : Bytes → Derived → Option String
encode_derived salt (derived digest) = some (encoded_hash salt digest)
encode_derived salt _ = none

module _ (lib : Hashlib) where
  unfoldable pub hash_password : String → Bytes → Option String
  hash_password password salt =
      encode_derived salt (lib.pbkdf2_hmac (encode password) salt pbkdf2_iterations)

  -- `hmac.compare_digest(_b64encode(digest), expected)`, false where a text of `expected` that is
  -- not ASCII raises a `TypeError`
  abbrev pub compare_derived : Derived → String → Result Bool
  compare_derived (derived digest) expected = ok (b64encode digest == expected)
  compare_derived value_error expected = ok false
  compare_derived too_large expected = err overflow_error

  -- The bytes of the salt and the number of iterations, where both are found.
  abbrev pub derive : String → Option Bytes → Option ℤ → Derived
  derive password (some salt) (some iterations) = lib.pbkdf2_hmac (encode password) salt iterations
  derive password _ _ = value_error

  -- The four parts of a stored hash; unpacking fewer raises a `ValueError`.
  abbrev pub verify_parts : String → List String → Result Bool
  verify_parts password (algorithm ∷ iterations ∷ salt ∷ expected ∷ []) =
      if not (algorithm == "pbkdf2_sha256")
      then ok false
      else compare_derived (derive password (b64decode salt) (lib.int_of iterations)) expected
  verify_parts password _ = ok false

  unfoldable pub verify_password : String → String → Result Bool
  verify_password password encoded = verify_parts password (split (some 3) b'$' encoded)
