-- ===== src/Security/Token.antt =====
-- `create_access_token` and `decode_access_token` of app/security.py, with the settings of
-- app/config.py that they read. `hmac`, `json` and `int` are parameters, and so is the `jti` that
-- `secrets.token_urlsafe` draws.
pub mod Decode
pub mod Accepted
pub mod Refused
use Prim.Native.String as Text
use ioka.Prelude.{
  ℕ, ◌≡◌, ◌*◌, ◌/◌, String, Bool, true, not, ◌||◌, Option, none, some, List, [], ◌∷◌,
}
use ioka.Prelude.Int.{ℤ, pos}
use ioka.Bytes.{Bytes, IsBytes, encode, split, is_ascii, same_bytes}
use ioka.Security.Base64.{b64encode, b64decode}
use ioka.Security.Claims.{
  Claim, Claims, text, integer, object, nil, claim, as_dict, lookup, is_claim, is_truthy,
  int_of_claim, at_most, malformed, or_malformed,
}
use ioka.Exceptions.{Result, ok, error, authentication, raise_if, ◌>>=◌, ◌>>◌}
use ioka.Domain.Calendar.{Datetime, add_seconds}

pub record JwtSettings : Type 0 where
  pub jwt_secret : String
  pub jwt_issuer : String
  pub jwt_audience : String
  pub jwt_ttl_minutes : ℕ

pub record Jwt : Type 0 where
  -- `hmac.new(key, message, hashlib.sha256).digest()`
  pub digest : Bytes → Bytes → Bytes
  -- `json.dumps(value, separators=(",", ":"))`
  pub dumps : Claims → String
  -- `json.loads(data)`, `none` where it raises
  pub loads : Bytes → Option Claim
  -- `int(text)`, `none` where it raises
  pub int_of : String → Option ℤ

-- What is relied on of them: a digest is bytes, and a dump is ASCII.
pub record JwtLaws (lib : Jwt) : Type 0 where
  pub digest_bytes : (key message : Bytes) → IsBytes (lib.digest key message)
  pub dumps_ascii : (claims : Claims) → is_ascii (lib.dumps claims) ≡ true

-- `loads` reads back what `dumps` has written.
abbrev pub ReadsBack : Jwt → Claims → Type 0
ReadsBack lib claims = lib.loads (encode (lib.dumps claims)) ≡ some (object claims)

-- `int(t.timestamp())`
abbrev pub seconds : Datetime → ℕ
seconds t = t.micros / 1000000

abbrev pub jwt_header : Claims
jwt_header = claim "alg" (text "HS256") (claim "typ" (text "JWT") nil)

-- `f"{a}.{b}"`
abbrev pub dotted : String → String → String
dotted a b = Text.◌++◌ a (Text.◌∷◌ "." b)

module _ (lib : Jwt) (settings : JwtSettings) where
  abbrev pub expiry : Datetime → Datetime
  expiry now = add_seconds (settings.jwt_ttl_minutes * 60) now

  abbrev pub payload_of : String → String → Datetime → Claims
  payload_of subject jti now = claim "sub" (text subject) (
      claim "iss" (text settings.jwt_issuer) (
        claim "aud" (text settings.jwt_audience) (
          claim "iat" (integer (pos (seconds now)))
            (claim "exp" (integer (pos (seconds (expiry now)))) (claim "jti" (text jti) nil)))))

  abbrev pub signature : String → String → Bytes
  signature encoded_header encoded_payload =
      lib.digest (encode settings.jwt_secret) (encode (dotted encoded_header encoded_payload))

  unfoldable pub create_access_token : String → String → Datetime → String × Datetime
  create_access_token subject jti now =
      let encoded_header = b64encode (encode (lib.dumps jwt_header)) in
      let encoded_payload = b64encode (encode (lib.dumps (payload_of subject jti now))) in
      (
        dotted encoded_header
            (dotted encoded_payload (b64encode (signature encoded_header encoded_payload))),
        expiry now,
      )

  -- `json.loads(_b64decode(part))`
  abbrev pub load_part : String → Result Claim
  load_part part = do
    data_bytes ← or_malformed (b64decode part)
    or_malformed (lib.loads data_bytes)

  unfoldable pub check_payload : ℕ → Claims → Result Claims
  check_payload now payload = do
    raise_if
        (not (is_claim settings.jwt_issuer (lookup "iss" payload))
          || not (is_claim settings.jwt_audience (lookup "aud" payload)))
        (error authentication "Invalid token issuer or audience")
    expires ← or_malformed (int_of_claim lib.int_of (lookup "exp" payload))
    raise_if (at_most expires now) (error authentication "Token has expired")
    raise_if (not (is_truthy (lookup "sub" payload)))
        (error authentication "Token subject is missing")
    ok payload

  -- The tests on the header and on the claims, in the order of the code.
  unfoldable pub check_claims : ℕ → Claim → Claim → Result Claims
  unfolding check_payload
  check_claims now header payload = do
    head ← as_dict header
    raise_if (not (is_claim "HS256" (lookup "alg" head)))
        (error authentication "Unsupported token algorithm")
    claims ← as_dict payload
    check_payload now claims

  unfoldable pub decode_parts : ℕ → List String → Result Claims
  unfolding check_claims
  decode_parts now (encoded_header ∷ encoded_payload ∷ encoded_signature ∷ []) = do
    given ← or_malformed (b64decode encoded_signature)
    raise_if (not (same_bytes (signature encoded_header encoded_payload) given))
        (error authentication "Invalid token signature")
    header ← load_part encoded_header
    payload ← load_part encoded_payload
    check_claims now header payload
  decode_parts now _ = malformed

  unfoldable pub decode_access_token : String → Datetime → Result Claims
  unfolding decode_parts
  decode_access_token token now = decode_parts (seconds now) (split none b'.' token)
