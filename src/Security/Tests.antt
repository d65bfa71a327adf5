-- ===== src/Security/Tests.antt =====
-- The theorems on hashes and tokens at inputs that meet their hypotheses.
use ioka.Prelude.{arith, ◌≡◌, ◌↔◌, refl, String, true, some, [], ◌∷◌}
use ioka.Bytes.{Bytes, IsBytes, encode, rstrip}
use ioka.Exceptions.{ok, err, error, authentication}
use ioka.Security.Base64.{b64encode, b64decode, urlsafe_b64encode, urlsafe_b64decode}
use ioka.Security.Base64.RoundTrip.{b64decode-b64encode}
use ioka.Security.Password.{hash_password, verify_password, pbkdf2_iterations}
use ioka.Security.Password.Verify.{verify_password-hash_password}
use ioka.Security.Claims.{Claims}
use ioka.Security.Token.{create_access_token, decode_access_token, payload_of}
use ioka.Security.Token.Decode.{decode_access_token-create_access_token}
use ioka.Fixture.{at_time}
use ioka.Fixture.Libraries.{hashlib, hashlib-HashlibLaws, jwt, jwt-JwtLaws, jwt_settings}

-- texts of the documentation of base64
encodes : b64encode (encode "light work.") ≡ "bGlnaHQgd29yay4"
unfolding b64encode urlsafe_b64encode encode rstrip
encodes = refl

encodes_high : b64encode (255 ∷ 254 ∷ 253 ∷ 251 ∷ []) ≡ "__79-w"
unfolding b64encode urlsafe_b64encode rstrip
encodes_high = refl

decodes : b64decode "bGlnaHQgd29yay4" ≡ some (encode "light work.")
unfolding b64decode encode urlsafe_b64decode
decodes = refl

abbrev salt : Bytes
salt = 7 ∷ 200 ∷ 255 ∷ 0 ∷ []

salt-IsBytes : IsBytes salt
salt-IsBytes = (omega arith, (omega arith, (omega arith, (omega arith, tt))))

b64decode-b64encode_example : b64decode (b64encode salt) ≡ some salt
b64decode-b64encode_example = b64decode-b64encode salt salt-IsBytes

verify_password-hash_password_example :
    (encoded : String) × (hash_password hashlib "abc12345!" salt ≡ some encoded)
    × ((verify_password hashlib "abc12345!" encoded ≡ ok true) ↔ (
        hashlib.pbkdf2_hmac (encode "abc12345!") salt pbkdf2_iterations
        ≡ hashlib.pbkdf2_hmac (encode "abc12345!") salt pbkdf2_iterations))
verify_password-hash_password_example =
    verify_password-hash_password hashlib hashlib-HashlibLaws salt salt-IsBytes "abc12345!"
      "abc12345!"

abbrev payload : Claims
payload = payload_of (jwt Claims.nil) jwt_settings "agent-1" "id" (at_time 0)

decode_access_token-create_access_token_example :
    decode_access_token
      (jwt payload)
      jwt_settings
      (create_access_token (jwt payload) jwt_settings "agent-1" "id" (at_time 0)).0
      (at_time 3600000000)
    ≡ err (error authentication "Token has expired")
unfolding encode create_access_token
decode_access_token-create_access_token_example =
    decode_access_token-create_access_token (jwt payload) (jwt-JwtLaws payload) jwt_settings
      "agent-1" "id" (at_time 0) (at_time 3600000000) refl refl refl
