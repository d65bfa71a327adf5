-- ===== src/Security/Password/Verify.antt =====
-- Which passwords a stored hash verifies.
use Prim.Native.String as Text
use ioka.Prelude.{
  ◌≡◌, ◌↔◌, refl, ap, sym, ◌∙◌, String, true, some, [], ◌∷◌, ◌==◌, eq_refl, eq_of_test,
}
use ioka.Bytes.{Bytes, IsBytes, encode, split}
use ioka.Bytes.Split.{split-append, split_done}
use ioka.Exceptions.{ok, ok-injective}
use ioka.Security.Base64.{b64encode, b64decode}
use ioka.Security.Base64.RoundTrip.{b64decode-b64encode}
use ioka.Security.Base64.RoundTrip.Apart.{is_free-b64encode_dollar}
use ioka.Security.Password.{
  Hashlib, HashlibLaws, derived, hash_password, verify_password, encoded_hash, pbkdf2_iterations,
}

split-encoded_hash :
    (salt digest : Bytes)
    → IsBytes salt
    → split (some 3) b'$' (encoded_hash salt digest)
      ≡ "pbkdf2_sha256" ∷ "310000" ∷ b64encode salt ∷ b64encode digest ∷ []
split-encoded_hash salt digest h =
    let tail = Text.◌++◌ (b64encode salt) (Text.◌∷◌ "$" (b64encode digest)) in
    let middle : String = Text.◌++◌ "310000" (Text.◌∷◌ "$" tail) in
    split-append (some 3) b'$' "pbkdf2_sha256" "$" middle refl refl refl
    ∙ ap (λ w. "pbkdf2_sha256" ∷ w) (split-append (some 2) b'$' "310000" "$" tail refl refl refl)
    ∙ ap (λ w. "pbkdf2_sha256" ∷ "310000" ∷ w)
        (split-append (some 1) b'$' (b64encode salt) "$" (b64encode digest) refl refl
          (is_free-b64encode_dollar salt h))
    ∙ ap (λ w. "pbkdf2_sha256" ∷ "310000" ∷ b64encode salt ∷ w) (split_done b'$' (b64encode digest))

-- Both encode as the same text only if they are the same bytes.
pub b64encode-injective : (a b : Bytes) → IsBytes a → IsBytes b → b64encode a ≡ b64encode b → a ≡ b
b64encode-injective a b ha hb e =
    let t : some a ≡ some b =
      sym (b64decode-b64encode a ha) ∙ ap b64decode e ∙ b64decode-b64encode b hb in
    cc

-- The texts are compared as the digests.
same_encoded :
    (a b : Bytes) → IsBytes a → IsBytes b → ((b64encode a == b64encode b) ≡ true) ↔ (a ≡ b)
same_encoded a b ha hb =
    (λ e. b64encode-injective a b ha hb (eq_of_test _ _ e), λ e. rw e (eq_refl (b64encode b)))

derived-injective : (a b : Bytes) → derived a ≡ derived b → a ≡ b
derived-injective a b e = cc

hash_password-of_digest :
    (lib : Hashlib) (salt : Bytes) (password : String) (digest : Bytes)
    → lib.pbkdf2_hmac (encode password) salt pbkdf2_iterations ≡ derived digest
    → hash_password lib password salt ≡ some (encoded_hash salt digest)
unfolding hash_password
hash_password-of_digest lib salt password digest e = rw e

module _ (lib : Hashlib) (laws : HashlibLaws lib) (salt : Bytes) (salt_bytes : IsBytes salt) where
  verify-encoded_hash :
      (password : String) (digest own : Bytes)
      → lib.pbkdf2_hmac (encode password) salt pbkdf2_iterations ≡ derived own
      → verify_password lib password (encoded_hash salt digest)
        ≡ ok (b64encode own == b64encode digest)
  unfolding verify_password
  verify-encoded_hash password digest own e = rw (
    split-encoded_hash salt digest salt_bytes,
    b64decode-b64encode salt salt_bytes,
    laws.int_of_iterations,
    e,
  )

  -- Hashing a password with a salt of bytes gives a text, against which a password verifies exactly
  -- if the same digest is derived from both passwords, under the laws of `hashlib` and `int`; so a
  -- password verifies against its own hash.
  pub verify_password-hash_password :
      (password other : String)
      → (encoded : String) × (hash_password lib password salt ≡ some encoded)
        × ((verify_password lib other encoded ≡ ok true) ↔ (
            lib.pbkdf2_hmac (encode other) salt pbkdf2_iterations
            ≡ lib.pbkdf2_hmac (encode password) salt pbkdf2_iterations))
  unfolding hash_password
  verify_password-hash_password password other =
      let (digest, digest_bytes, e) = laws.derives (encode password) salt in
      let (own, own_bytes, f) = laws.derives (encode other) salt in
      let same = same_encoded own digest own_bytes digest_bytes in
      let verified = verify-encoded_hash other digest own f in
      (
        encoded_hash salt digest,
        hash_password-of_digest lib salt password digest e,
        (
          (λ accepted.
              let test : (b64encode own == b64encode digest) ≡ true =
                ok-injective _ _ (sym verified ∙ accepted) in
              f ∙ ap derived (same.0 test) ∙ sym e),
          (λ equal.
              let digests : own ≡ digest = derived-injective _ _ (sym f ∙ equal ∙ e) in
              verified ∙ ap ok (same.1 digests)),
        ),
      )
