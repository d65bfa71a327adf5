-- ===== src/Fixture/Libraries.antt =====
-- Small functions that keep the laws of the libraries, for the tests and examples.
use ioka.Prelude.{
  ℕ, ◌+◌, ◌%◌, ◌≡◌, refl, String, true, Option, none, some, [], ◌∷◌, ◌==◌, if◌then◌else◌, arith,
  not, Bool-cases, inl, inr,
}
use ioka.Prelude.Int.{ℤ, pos}
use ioka.Bytes.{Bytes, IsBytes, TextMethods, encode, is_ascii, same_bytes}
use ioka.Security.Password.{Hashlib, HashlibLaws, Derived, derived, value_error}
use ioka.Security.Claims.{Claim, Claims, nil, claim, object}
use ioka.Security.Token.{Jwt, JwtLaws, JwtSettings, jwt_header}
use ioka.Schemas.Validation.Bounds.{TextLaws}

-- The texts of the examples are stripped, and in capitals but for the scheme.
abbrev pub methods : TextMethods
methods = record {
  lower = λ s. if s == "Bearer" then "bearer" else s;
  upper = λ s. s;
  casefold = λ s. s;
  strip = λ s. s;
  isalpha = λ s. not (s == "");
}

pub methods-TextLaws : TextLaws methods
methods-TextLaws = record {
  strip_ascii = λ s h. h;
  strip_count = λ s. omega arith;
  upper_count = λ s h. refl;
}

abbrev pub checksum : Bytes → ℕ
checksum [] = 0
checksum (b ∷ bs) = b + checksum bs

abbrev pub digest : Bytes → Bytes
digest bs = checksum bs % 256 ∷ []

digest-IsBytes : (bs : Bytes) → IsBytes (digest bs)
digest-IsBytes bs = (omega arith, tt)

abbrev pub derive_checksum : Bytes → Bytes → ℤ → Derived
derive_checksum password salt (pos n) = derived (digest password)
derive_checksum password salt _ = value_error

abbrev pub int_of : String → Option ℤ
int_of s = if s == "310000" then some (pos 310000) else none

abbrev pub hashlib : Hashlib
hashlib = record { pbkdf2_hmac = derive_checksum; int_of = int_of }

pub hashlib-HashlibLaws : HashlibLaws hashlib
hashlib-HashlibLaws = record {
  derives = λ password salt. (digest password, digest-IsBytes password, refl);
  int_of_iterations = refl;
}

abbrev pub jwt_settings : JwtSettings
jwt_settings = record {
  jwt_secret = "secret";
  jwt_issuer = "ioka-flight-booking";
  jwt_audience = "ioka-agents";
  jwt_ttl_minutes = 60;
}

-- A dump names one of two objects: the header, by its first claim, or the claims of the example.
abbrev pub dumps : Claims → String
dumps nil = "p"
dumps (claim name value rest) = if name == "alg" then "h" else "p"

abbrev pub loads : Claims → Bytes → Option Claim
loads payload bs =
    if same_bytes bs (encode "h") then some (object jwt_header) else some (object payload)

abbrev pub jwt : Claims → Jwt
jwt payload = record {
  digest = λ key message. digest message;
  dumps = dumps;
  loads = loads payload;
  int_of = int_of;
}

dumps_ascii : (claims : Claims) → is_ascii (dumps claims) ≡ true
dumps_ascii nil = refl
dumps_ascii (claim name value rest) = elim (Bool-cases (name == "alg")) [
  | inl header ↦ rw header refl
  | inr payload ↦ rw payload refl
]

pub jwt-JwtLaws : (payload : Claims) → JwtLaws (jwt payload)
jwt-JwtLaws payload = record {
  digest_bytes = λ key message. digest-IsBytes message;
  dumps_ascii = dumps_ascii;
}
