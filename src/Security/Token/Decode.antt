-- ===== src/Security/Token/Decode.antt =====
-- Which tokens are accepted.
use ioka.Prelude.{
  ◌≡◌, refl, ap, ◌∙◌, String, Bool, true, false, none, [], ◌∷◌, ◌==◌, leb, if◌then◌else◌, eq_refl,
}
use ioka.Bytes.{Bytes, IsBytes, encode, split, same_bytes_self, encode-IsBytes}
use ioka.Bytes.Split.{split-append, split_free}
use ioka.Exceptions.{Exception, ◌>>◌, Result, ok, err, error, authentication, raise_if}
use ioka.Security.Base64.{b64encode}
use ioka.Security.Base64.RoundTrip.{b64decode-b64encode}
use ioka.Security.Base64.RoundTrip.Apart.{is_free-b64encode_dot}
use ioka.Security.Claims.{Claims, object}
use ioka.Security.Token.{
  Jwt, JwtLaws, ReadsBack, JwtSettings, seconds, jwt_header, dotted, expiry, payload_of, signature,
  create_access_token, load_part, check_claims, check_payload, decode_access_token,
}
use ioka.Domain.Calendar.{Datetime}

split-dotted :
    (a b c : Bytes)
    → IsBytes a
    → IsBytes b
    → IsBytes c
    → split none b'.' (dotted (b64encode a) (dotted (b64encode b) (b64encode c)))
      ≡ b64encode a ∷ b64encode b ∷ b64encode c ∷ []
split-dotted a b c ha hb hc =
    split-append none b'.' (b64encode a) "." (dotted (b64encode b) (b64encode c)) refl refl
      (is_free-b64encode_dot a ha)
    ∙ ap (λ w. b64encode a ∷ w)
        (split-append none b'.' (b64encode b) "." (b64encode c) refl refl
          (is_free-b64encode_dot b hb))
    ∙ ap (λ w. b64encode a ∷ b64encode b ∷ w)
        (split_free none b'.' (b64encode c) (is_free-b64encode_dot c hc))

raise_if-then {ℓ} :
    {A : Type ℓ} (b : Bool) (e : Exception) (m : Result A)
    → (raise_if b e >> m) ≡ (if b then err e else m)
raise_if-then true e m = refl
raise_if-then false e m = refl

module _ (lib : Jwt) (laws : JwtLaws lib) (settings : JwtSettings) where
  dumped-IsBytes : (claims : Claims) → IsBytes (encode (lib.dumps claims))
  dumped-IsBytes claims = encode-IsBytes (lib.dumps claims) (laws.dumps_ascii claims)

  load_part-dumps :
      (claims : Claims)
      → ReadsBack lib claims
      → load_part lib settings (b64encode (encode (lib.dumps claims))) ≡ ok (object claims)
  load_part-dumps claims reads = rw (b64decode-b64encode _ (dumped-IsBytes claims), reads)

  check_claims-payload_of :
      (subject jti : String) (start now : Datetime)
      → (subject == "") ≡ false
      → check_claims lib settings
          (seconds now)
          (object jwt_header)
          (object (payload_of lib settings subject jti start))
        ≡ (if leb (seconds (expiry lib settings start)) (seconds now)
            then err (error authentication "Token has expired")
            else ok (payload_of lib settings subject jti start))
  unfolding check_claims check_payload
  check_claims-payload_of subject jti start now named =
      rw (eq_refl settings.jwt_issuer, eq_refl settings.jwt_audience, named)
        (raise_if-then (leb (seconds (expiry lib settings start)) (seconds now))
          (error authentication "Token has expired")
          (ok (payload_of lib settings subject jti start)))

  -- A token is accepted, with the claims that it was created with, until its expiry, and refused as
  -- expired from then on, if digests are bytes and dumps are ASCII, and `json` reads back the
  -- header and the claims; the subject is not empty.
  pub decode_access_token-create_access_token :
      (subject jti : String) (start now : Datetime)
      → (subject == "") ≡ false
      → ReadsBack lib jwt_header
      → ReadsBack lib (payload_of lib settings subject jti start)
      → decode_access_token lib settings (create_access_token lib settings subject jti start).0 now
        ≡ (if leb (seconds (create_access_token lib settings subject jti start).1) (seconds now)
            then err (error authentication "Token has expired")
            else ok (payload_of lib settings subject jti start))
  unfolding decode_access_token create_access_token
  decode_access_token-create_access_token subject jti start now named reads_header reads_claims =
      let header = encode (lib.dumps jwt_header) in
      let payload = encode (lib.dumps (payload_of lib settings subject jti start)) in
      let sign = signature lib settings (b64encode header) (b64encode payload) in
      let sign_bytes : IsBytes sign = laws.digest_bytes _ _ in
      rw
        (
          split-dotted header payload sign (dumped-IsBytes _) (dumped-IsBytes _) sign_bytes,
          b64decode-b64encode sign sign_bytes,
          same_bytes_self sign,
          load_part-dumps jwt_header reads_header,
          load_part-dumps (payload_of lib settings subject jti start) reads_claims,
        )
        (check_claims-payload_of subject jti start now named)
