-- ===== src/Security/Token/Accepted.antt =====
-- What holds of every token that is accepted, and how the others are refused.
use ioka.Prelude.{
  ℕ, ◌≡◌, inl, inr, refl, ap, sym, ◌∙◌, String, Bool, true, false, not, Option, none, some, List,
  [], ◌∷◌, arith, Option-cases,
}
use ioka.Prelude.Int.{ℤ}
use ioka.Bytes.{Bytes, split, same_bytes, eq_of_same_bytes, same_bytes_self}
use ioka.Exceptions.{
  Result, ok, error, authentication, raise_if, raise_if-ok, or_raise-ok, bind-ok, ◌>>=◌, ◌>>◌,
}
use ioka.Security.Base64.{b64decode}
use ioka.Security.Claims.{
  Claim, Claims, object, lookup, as_dict, is_claim, is_truthy, at_most, int_of_claim, or_malformed,
}
use ioka.Security.Token.{
  Jwt, JwtSettings, seconds, signature, load_part, check_payload, check_claims, decode_parts,
  decode_access_token,
}
use ioka.Domain.Calendar.{Datetime}

-- The parts of the token, and its claims.
pub record IsAccepted (lib : Jwt) (settings : JwtSettings) (token : String) (now : Datetime)
    (claims : Claims) : Type 0 where
  pub header : String
  pub payload : String
  pub signature_text : String
  pub expires : ℤ
  pub parts : split none b'.' token ≡ header ∷ payload ∷ signature_text ∷ []
  pub is_signed : b64decode signature_text ≡ some (signature lib settings header payload)
  pub head : Claims
  pub header_loaded : load_part lib settings header ≡ ok (object head)
  pub algorithm : is_claim "HS256" (lookup "alg" head) ≡ true
  pub claims_loaded : load_part lib settings payload ≡ ok (object claims)
  pub issuer : is_claim settings.jwt_issuer (lookup "iss" claims) ≡ true
  pub audience : is_claim settings.jwt_audience (lookup "aud" claims) ≡ true
  pub expiry : int_of_claim lib.int_of (lookup "exp" claims) ≡ some expires
  pub in_time : at_most expires (seconds now) ≡ false
  pub subject : is_truthy (lookup "sub" claims) ≡ true

or_malformed-ok {ℓ κ} :
    {A : Type ℓ} {B : Type κ} (o : Option A) (f : A → Result B) {x : B}
    → (or_malformed o >>= f) ≡ ok x
    → (a : A) × (o ≡ some a) × (f a ≡ ok x)
or_malformed-ok o f h = or_raise-ok o (error authentication "Malformed bearer token") f h

as_dict-ok {ℓ} :
    {B : Type ℓ} (v : Claim) (f : Claims → Result B) {x : B}
    → (as_dict v >>= f) ≡ ok x
    → (claims : Claims) × (v ≡ object claims) × (f claims ≡ ok x)
as_dict-ok (object claims) f h = (claims, refl, h)
as_dict-ok Claim.null f h = cc
as_dict-ok (Claim.text s) f h = cc
as_dict-ok (Claim.integer n) f h = cc
as_dict-ok (Claim.boolean b) f h = cc
as_dict-ok (Claim.real w z) f h = cc
as_dict-ok (Claim.array e) f h = cc

module _ (lib : Jwt) (settings : JwtSettings) where
  check_payload-ok :
      (now : ℕ) (payload found : Claims)
      → check_payload lib settings now payload ≡ ok found
      → (expires : ℤ) × (found ≡ payload)
        × (is_claim settings.jwt_issuer (lookup "iss" payload) ≡ true)
        × (is_claim settings.jwt_audience (lookup "aud" payload) ≡ true)
        × (int_of_claim lib.int_of (lookup "exp" payload) ≡ some expires)
        × (at_most expires now ≡ false)
        × (is_truthy (lookup "sub" payload) ≡ true)
  unfolding check_payload
  check_payload-ok now payload found h =
      elim (Option-cases (int_of_claim lib.int_of (lookup "exp" payload))) [
        | inl e ↦ ground arith
        | inr (expires, e) ↦
            (expires, ground arith, ground arith, ground arith, e, ground arith, ground arith)
      ]

  check_claims-ok :
      (now : ℕ) (header payload : Claim) (found : Claims)
      → check_claims lib settings now header payload ≡ ok found
      → (head claims : Claims) × (header ≡ object head)
        × (is_claim "HS256" (lookup "alg" head) ≡ true)
        × (payload ≡ object claims)
        × (check_payload lib settings now claims ≡ ok found)
  unfolding check_claims
  check_claims-ok now header payload found h =
      let (head, is_head, a) = as_dict-ok header _ h in
      let (algorithm, b) =
        raise_if-ok (not (is_claim "HS256" (lookup "alg" head)))
          (error authentication "Unsupported token algorithm") _ a in
      let (claims, is_claims, c) = as_dict-ok payload _ b in
      (head, claims, is_head, ground arith, is_claims, c)

  -- An answer is of a token of three parts.
  decode_parts-three :
      (now : ℕ) (parts : List String) (found : Claims)
      → decode_parts lib settings now parts ≡ ok found
      → (header payload signature_text : String) × (parts ≡ header ∷ payload ∷ signature_text ∷ [])
  unfolding decode_parts
  decode_parts-three now [] found h = cc
  decode_parts-three now (a ∷ []) found h = cc
  decode_parts-three now (a ∷ b ∷ []) found h = cc
  decode_parts-three now (a ∷ b ∷ c ∷ []) found h = (a, b, c, refl)
  decode_parts-three now (a ∷ b ∷ c ∷ d ∷ rest) found h = cc

  -- The signature is compared, and both parts are loaded.
  decode_parts-ok :
      (now : ℕ) (header payload signature_text : String) (found : Claims)
      → decode_parts lib settings now (header ∷ payload ∷ signature_text ∷ []) ≡ ok found
      → (head body : Claim) × (b64decode signature_text
          ≡ some (signature lib settings header payload))
        × (load_part lib settings header ≡ ok head)
        × (load_part lib settings payload ≡ ok body)
        × (check_claims lib settings now head body ≡ ok found)
  unfolding decode_parts
  decode_parts-ok now header payload signature_text found h =
      let checked : Claim → Claim → Result Claims = check_claims lib settings now in
      let loaded : Result Claims =
        load_part lib settings header >>= λ head. load_part lib settings payload >>= checked head in
      let differs : Bytes → Bool =
        λ given. not (same_bytes (signature lib settings header payload) given) in
      let forged = error authentication "Invalid token signature" in
      let (given, is_given, a) =
        or_malformed-ok (b64decode signature_text)
          (λ given. raise_if (differs given) forged >> loaded) h in
      let (same, b) = raise_if-ok (differs given) forged loaded a in
      let (head, is_head, c) =
        bind-ok (load_part lib settings header)
          (λ head. load_part lib settings payload >>= checked head) b in
      let (body, is_body, d) = bind-ok (load_part lib settings payload) (checked head) c in
      let equal : signature lib settings header payload ≡ given =
        eq_of_same_bytes _ _ (ground arith) in
      (head, body, is_given ∙ ap some (sym equal), is_head, is_body, d)

  -- A token is accepted only if it has three parts, its third is the signature of the other two
  -- under the secret, its header names HS256, and the claims of its payload, which are returned,
  -- name the issuer and the audience of the settings, an expiry after the present and a subject.
  pub decode_access_token-IsAccepted :
      (token : String) (now : Datetime) (claims : Claims)
      → decode_access_token lib settings token now ≡ ok claims
      → IsAccepted lib settings token now claims
  unfolding decode_access_token
  decode_access_token-IsAccepted token now claims h =
      let (header, payload, signature_text, three) = decode_parts-three (seconds now) _ claims h in
      let (head, body, is_signed, is_head, is_body, a) =
        decode_parts-ok (seconds now) header payload signature_text claims (rw three at h) in
      let (header_claims, own, are_header, algorithm, are_own, b) =
        check_claims-ok (seconds now) head body claims a in
      let (expires, same, issuer, audience, expiry, in_time, subject) =
        check_payload-ok (seconds now) own claims b in
      record {
        header = header;
        payload = payload;
        signature_text = signature_text;
        expires = expires;
        parts = three;
        is_signed = is_signed;
        head = header_claims;
        header_loaded = is_head ∙ ap ok are_header;
        algorithm = algorithm;
        claims_loaded = is_body ∙ ap ok (are_own ∙ ap object (sym same));
        issuer = rw same issuer;
        audience = rw same audience;
        expiry = rw same expiry;
        in_time = in_time;
        subject = rw same subject;
      }

  -- Nothing else is asked of a token.
  pub decode_access_token-of_IsAccepted :
      (token : String) (now : Datetime) (claims : Claims)
      → IsAccepted lib settings token now claims
      → decode_access_token lib settings token now ≡ ok claims
  unfolding decode_access_token decode_parts check_claims check_payload
  decode_access_token-of_IsAccepted token now claims h =
      rw
        (
          h.parts,
          h.is_signed,
          same_bytes_self (signature lib settings h.header h.payload),
          h.header_loaded,
          h.claims_loaded,
          h.algorithm,
          h.issuer,
          h.audience,
          h.expiry,
          h.in_time,
          h.subject,
        )
        refl
