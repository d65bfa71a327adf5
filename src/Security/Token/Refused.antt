-- ===== src/Security/Token/Refused.antt =====
-- Every refusal of a token is an `AuthenticationError`.
use ioka.Prelude.{
  ℕ, ◌≡◌, refl, String, Bool, true, false, Option, none, some, List, [], ◌∷◌, not, arith, inl, inr,
  Option-cases,
}
use ioka.Bytes.{split, same_bytes}
use ioka.Exceptions.{Exception, app, Result, ok, err, error, authentication, raise_if, ◌>>=◌, ◌>>◌}
use ioka.Security.Base64.{b64decode}
use ioka.Security.Claims.{
  Claim, Claims, object, lookup, as_dict, is_claim, int_of_claim, or_malformed,
}
use ioka.Security.Token.{
  Jwt, JwtSettings, seconds, signature, load_part, check_claims, check_payload, decode_parts,
  decode_access_token,
}
use ioka.Domain.Calendar.{Datetime}

abbrev pub is_authentication : Exception → Bool
is_authentication (app e) = elim e.class [ authentication ↦ true | _ ↦ false ]
is_authentication _ = false

-- If the block raises, it is an `AuthenticationError`.
abbrev pub refuses {ℓ} : {A : Type ℓ} → Result A → Bool
refuses (ok a) = true
refuses (err e) = is_authentication e

pub refuses-bind {ℓ κ} :
    {A : Type ℓ} {B : Type κ} (m : Result A) (f : A → Result B)
    → refuses m ≡ true
    → ((a : A) → refuses (f a) ≡ true)
    → refuses (m >>= f) ≡ true
refuses-bind (ok a) f h k = k a
refuses-bind (err e) f h k = h

refuses-or_malformed {ℓ} : {A : Type ℓ} (o : Option A) → refuses (or_malformed o) ≡ true
refuses-or_malformed none = refl
refuses-or_malformed (some a) = refl

refuses-as_dict : (v : Claim) → refuses (as_dict v) ≡ true
refuses-as_dict (object claims) = refl
refuses-as_dict Claim.null = refl
refuses-as_dict (Claim.text s) = refl
refuses-as_dict (Claim.integer n) = refl
refuses-as_dict (Claim.boolean b) = refl
refuses-as_dict (Claim.real w z) = refl
refuses-as_dict (Claim.array e) = refl

module _ (lib : Jwt) (settings : JwtSettings) where
  refuses-load_part : (part : String) → refuses (load_part lib settings part) ≡ true
  refuses-load_part part =
      refuses-bind (or_malformed (b64decode part)) (λ given. or_malformed (lib.loads given))
        (refuses-or_malformed (b64decode part)) (λ given. refuses-or_malformed (lib.loads given))

  refuses-check_payload :
      (now : ℕ) (payload : Claims) → refuses (check_payload lib settings now payload) ≡ true
  unfolding check_payload
  refuses-check_payload now payload =
      elim (Option-cases (int_of_claim lib.int_of (lookup "exp" payload))) [
        | inl e ↦ ground arith
        | inr (expires, e) ↦ ground arith
      ]

  refuses-check_claims :
      (now : ℕ) (header payload : Claim)
      → refuses (check_claims lib settings now header payload) ≡ true
  unfolding check_claims
  refuses-check_claims now header payload =
      refuses-bind (as_dict header)
        (λ head.
          raise_if (not (is_claim "HS256" (lookup "alg" head)))
            (error authentication "Unsupported token algorithm")
          >> (as_dict payload >>= check_payload lib settings now))
        (refuses-as_dict header)
        (λ head.
          let rest =
            refuses-bind (as_dict payload) (check_payload lib settings now)
              (refuses-as_dict payload) (refuses-check_payload now) in
          ground arith)

  refuses-decode_parts :
      (now : ℕ) (parts : List String) → refuses (decode_parts lib settings now parts) ≡ true
  unfolding decode_parts
  refuses-decode_parts now [] = refl
  refuses-decode_parts now (a ∷ []) = refl
  refuses-decode_parts now (a ∷ b ∷ []) = refl
  refuses-decode_parts now (a ∷ b ∷ c ∷ []) =
      let checked : Claim → Claim → Result Claims = check_claims lib settings now in
      let loaded : Result Claims =
        load_part lib settings a >>= λ head. load_part lib settings b >>= checked head in
      let rest : refuses loaded ≡ true =
        refuses-bind (load_part lib settings a) (λ head. load_part lib settings b >>= checked head)
          (refuses-load_part a)
          (λ head.
            refuses-bind (load_part lib settings b) (checked head) (refuses-load_part b)
              (refuses-check_claims now head)) in
      refuses-bind (or_malformed (b64decode c))
        (λ given.
          raise_if (not (same_bytes (signature lib settings a b) given))
            (error authentication "Invalid token signature")
          >> loaded)
        (refuses-or_malformed (b64decode c)) (λ given. ground arith)
  refuses-decode_parts now (a ∷ b ∷ c ∷ d ∷ rest) = refl

  pub refuses-decode_access_token :
      (token : String) (now : Datetime)
      → refuses (decode_access_token lib settings token now) ≡ true
  unfolding decode_access_token
  refuses-decode_access_token token now = refuses-decode_parts (seconds now) (split none b'.' token)
