-- ===== src/Security/Base64/RoundTrip/Apart.antt =====
-- What `_b64encode` writes has none of the characters at which hashes and tokens are split.
use Prim.Native.Char.{code}
use ioka.Prelude.{ℕ, ◌+◌, ◌*◌, ◌/◌, ◌%◌, ◌<◌, ◌≡◌, refl, true, false, not, [], ◌∷◌, eqb, arith}
use ioka.Bytes.{Bytes, IsBytes, is_free}
use ioka.Security.Base64.{symbol, b64encode}
use ioka.Security.Base64.RoundTrip.{every, every-lt, core, rstrip-core}

-- The alphabet has none of the characters at which hashes and tokens are split.
module _ (sep : ℕ) (apart : every 64 (λ v. not (eqb (code (symbol v)) sep)) ≡ true) where
  symbol_free : (v : ℕ) → v < 64 → eqb (code (symbol v)) sep ≡ false
  symbol_free v h =
      let t : not (eqb (code (symbol v)) sep) ≡ true =
        every-lt 64 (λ w. not (eqb (code (symbol w)) sep)) v apart h in
      ground arith

  is_free-core : (bs : Bytes) → IsBytes bs → is_free sep (core bs) ≡ true
  unfolding core
  is_free-core [] h = refl
  is_free-core (a ∷ []) h =
      rw (symbol_free (a / 4) (omega arith), symbol_free (a % 4 * 16) (omega arith))
  is_free-core (a ∷ b ∷ []) h = rw (
    symbol_free (a / 4) (omega arith),
    symbol_free (a % 4 * 16 + b / 16) (omega arith),
    symbol_free (b % 16 * 4) (omega arith),
  )
  is_free-core (a ∷ b ∷ c ∷ rest) h =
      rw
        (
          symbol_free (a / 4) (omega arith),
          symbol_free (a % 4 * 16 + b / 16) (omega arith),
          symbol_free (b % 16 * 4 + c / 64) (omega arith),
          symbol_free (c % 64) (omega arith),
        )
        (is_free-core rest h.1.1.1)

pub is_free-b64encode_dot : (bs : Bytes) → IsBytes bs → is_free b'.' (b64encode bs) ≡ true
unfolding b64encode every
is_free-b64encode_dot bs h = rw (rstrip-core bs h) (is_free-core b'.' refl bs h)

pub is_free-b64encode_dollar : (bs : Bytes) → IsBytes bs → is_free b'$' (b64encode bs) ≡ true
unfolding b64encode every
is_free-b64encode_dollar bs h = rw (rstrip-core bs h) (is_free-core b'$' refl bs h)
