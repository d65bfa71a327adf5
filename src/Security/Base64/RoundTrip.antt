-- ===== src/Security/Base64/RoundTrip.antt =====
-- `_b64decode` of what `_b64encode` writes.
pub mod Apart
use Prim.Native.String as Text
use Prim.Native.Char.{Char, code}
use ioka.Prelude.{
  ℕ, zero, suc, ◌+◌, ◌-◌, ◌*◌, ◌/◌, ◌%◌, ◌<◌, ◌≡◌, refl, ap, ◌∙◌, String, Bool, true, false, not,
  ◌&&◌, Option, none, some, [], ◌∷◌, ltb, eqb, arith,
}
use text.Mathlib.TextLemmas.{cons-append, nil-append, length-cons}
use ioka.Bytes.{Bytes, IsBytes, is_ascii, is_free, rstrip, keep, repeat}
use ioka.Security.Base64.{
  symbol, pad, urlsafe_b64encode, b64encode, value_of, Quad, first, second, third, fourth, next,
  cons_byte, emit, a2b, urlsafe_b64decode, b64decode,
}

-- Every value below a bound passes a test.
pub every : ℕ → (ℕ → Bool) → Bool
every zero test = true
every (suc n) test = test n && every n test

pub every-lt : (n : ℕ) (test : ℕ → Bool) (v : ℕ) → every n test ≡ true → v < n → test v ≡ true
unfolding every
every-lt zero test v h lt = absurd (omega arith)
every-lt (suc n) test v h lt = ground (arith, every-lt n test v)

abbrev is_value : ℕ → Option ℕ → Bool
is_value v none = false
is_value v (some w) = eqb w v

abbrev is_symbol : ℕ → Char → Bool
is_symbol v c = is_value v (value_of (code c)) && not (eqb (code c) b'=') && ltb (code c) 128

symbols : every 64 (λ v. is_symbol v (symbol v)) ≡ true
unfolding every
symbols = refl

is_value-eq : (v : ℕ) (o : Option ℕ) → is_value v o ≡ true → o ≡ some v
is_value-eq v none h = cc
is_value-eq v (some w) h = ground arith

symbol_lem :
    (v : ℕ)
    → v < 64
    → (value_of (code (symbol v)) ≡ some v)
      × (eqb (code (symbol v)) b'=' ≡ false)
      × (ltb (code (symbol v)) 128 ≡ true)
symbol_lem v h =
    let t : is_symbol v (symbol v) ≡ true = every-lt 64 (λ w. is_symbol w (symbol w)) v symbols h in
    (is_value-eq v _ (ground arith), ground arith, ground arith)

-- The encoding without its padding, and how many characters the decoder adds.
pub core : Bytes → String
core [] = Text.[]
core (a ∷ []) = Text.◌∷◌ (symbol (a / 4)) (Text.◌∷◌ (symbol (a % 4 * 16)) Text.[])
core (a ∷ b ∷ []) =
    Text.◌∷◌ (symbol (a / 4))
      (Text.◌∷◌ (symbol (a % 4 * 16 + b / 16)) (Text.◌∷◌ (symbol (b % 16 * 4)) Text.[]))
core (a ∷ b ∷ c ∷ rest) = Text.◌∷◌ (symbol (a / 4)) (
    Text.◌∷◌ (symbol (a % 4 * 16 + b / 16))
      (Text.◌∷◌ (symbol (b % 16 * 4 + c / 64)) (Text.◌∷◌ (symbol (c % 64)) (core rest))))

padding : Bytes → ℕ
padding [] = 0
padding (a ∷ []) = 2
padding (a ∷ b ∷ []) = 1
padding (a ∷ b ∷ c ∷ rest) = padding rest

count-core : (bs : Bytes) → (4 - Text.count (core bs) % 4) % 4 ≡ padding bs
unfolding core padding
count-core [] = refl
count-core (a ∷ []) = simp length-cons
count-core (a ∷ b ∷ []) = simp length-cons
count-core (a ∷ b ∷ c ∷ rest) = simp length-cons (omega (arith, count-core rest))

keep-symbol : (v : ℕ) (s : String) → v < 64 → keep b'=' (symbol v) s ≡ Text.◌∷◌ (symbol v) s
keep-symbol v Text.[] h = rw (symbol_lem v h).1
keep-symbol v (Text.◌∷◌ c s) h = refl

pub rstrip-core : (bs : Bytes) → IsBytes bs → rstrip b'=' (urlsafe_b64encode bs) ≡ core bs
unfolding core rstrip urlsafe_b64encode
rstrip-core [] h = refl
rstrip-core (a ∷ []) h = rw (keep-symbol (a % 4 * 16) Text.[] (omega arith))
rstrip-core (a ∷ b ∷ []) h = rw (keep-symbol (b % 16 * 4) Text.[] (omega arith))
rstrip-core (a ∷ b ∷ c ∷ rest) h =
    let tail = rstrip-core rest h.1.1.1 in rw (tail, keep-symbol (c % 64) _ (omega arith))

-- One more character of the encoding, before a text that is read later.
a2b-symbol :
    (q : Quad) (pads v : ℕ) (s t : String)
    → v < 64
    → a2b q pads (Text.◌++◌ (Text.◌∷◌ (symbol v) s) t) ≡ emit q v (a2b (next q v) 0 (Text.◌++◌ s t))
unfolding a2b
a2b-symbol q pads v s t h =
    let (value, plain, _) = symbol_lem v h in
    rw (cons-append (symbol v) s t) (rw (plain, value, a2b))

end_third : (left : ℕ) → a2b (third left) 0 (Text.◌++◌ Text.[] "==") ≡ some []
unfolding a2b
end_third left = refl

end_fourth : (left : ℕ) → a2b (fourth left) 0 (Text.◌++◌ Text.[] "=") ≡ some []
unfolding a2b
end_fourth left = refl

module _ (a b c pads : ℕ) (ha : a < 256) (hb : b < 256) (hc : c < 256) (s t : String) where
  -- a whole group
  a2b_group :
      a2b first pads (
        Text.◌++◌
          (Text.◌∷◌ (symbol (a / 4)) (
            Text.◌∷◌
              (symbol (a % 4 * 16 + b / 16))
              (Text.◌∷◌ (symbol (b % 16 * 4 + c / 64)) (Text.◌∷◌ (symbol (c % 64)) s))))
          t)
      ≡ cons_byte a (cons_byte b (cons_byte c (a2b first 0 (Text.◌++◌ s t))))
  a2b_group =
      let x : a / 4 * 4 + (a % 4 * 16 + b / 16) / 16 ≡ a = omega arith in
      let y : (a % 4 * 16 + b / 16) % 16 * 16 + (b % 16 * 4 + c / 64) / 4 ≡ b = omega arith in
      let z : (b % 16 * 4 + c / 64) % 4 * 64 + c % 64 ≡ c = omega arith in
      a2b-symbol first pads (a / 4) _ t (omega arith)
      ∙ rw (
        a2b-symbol (second (a / 4)) 0 (a % 4 * 16 + b / 16) _ t (omega arith),
        a2b-symbol (third ((a % 4 * 16 + b / 16) % 16)) 0 (b % 16 * 4 + c / 64) _ t (omega arith),
        a2b-symbol (fourth ((b % 16 * 4 + c / 64) % 4)) 0 (c % 64) s t (omega arith),
        x,
        y,
        z,
      )

-- The decoder reads the encoding with its padding, wherever padding has been counted before.
a2b-core :
    (bs : Bytes) (pads : ℕ)
    → IsBytes bs
    → a2b first pads (Text.◌++◌ (core bs) (repeat pad (padding bs))) ≡ some bs
unfolding core padding
a2b-core [] pads h = unfold a2b in refl
a2b-core (a ∷ []) pads h =
    let x : a / 4 * 4 + a % 4 * 16 / 16 ≡ a = omega arith in
    a2b-symbol first pads (a / 4) _ "==" (omega arith)
    ∙ rw (
      a2b-symbol (second (a / 4)) 0 (a % 4 * 16) Text.[] "==" (omega arith),
      x,
      end_third (a % 4 * 16 % 16),
    )
a2b-core (a ∷ b ∷ []) pads h =
    let x : a / 4 * 4 + (a % 4 * 16 + b / 16) / 16 ≡ a = omega arith in
    let y : (a % 4 * 16 + b / 16) % 16 * 16 + b % 16 * 4 / 4 ≡ b = omega arith in
    a2b-symbol first pads (a / 4) _ "=" (omega arith)
    ∙ rw (
      a2b-symbol (second (a / 4)) 0 (a % 4 * 16 + b / 16) _ "=" (omega arith),
      a2b-symbol (third ((a % 4 * 16 + b / 16) % 16)) 0 (b % 16 * 4) Text.[] "=" (omega arith),
      x,
      y,
      end_fourth (b % 16 * 4 % 4),
    )
a2b-core (a ∷ b ∷ c ∷ rest) pads h =
    a2b_group a b c pads h.0 h.1.0 h.1.1.0 (core rest) (repeat pad (padding rest))
    ∙ ap (λ o. cons_byte a (cons_byte b (cons_byte c o))) (a2b-core rest 0 h.1.1.1)

is_ascii-append : (s t : String) → is_ascii (Text.◌++◌ s t) ≡ is_ascii s && is_ascii t
is_ascii-append Text.[] t = rw nil-append
is_ascii-append (Text.◌∷◌ c s) t = rw (cons-append c s t) (ground (arith, is_ascii-append s t))

is_ascii-repeat : (n : ℕ) → is_ascii (repeat pad n) ≡ true
is_ascii-repeat zero = refl
is_ascii-repeat (suc n) = is_ascii-repeat n

is_ascii-core : (bs : Bytes) → IsBytes bs → is_ascii (core bs) ≡ true
unfolding core
is_ascii-core [] h = refl
is_ascii-core (a ∷ []) h =
    let x = symbol_lem (a / 4) (omega arith) in
    let y = symbol_lem (a % 4 * 16) (omega arith) in rw (x.2, y.2)
is_ascii-core (a ∷ b ∷ []) h =
    let x = symbol_lem (a / 4) (omega arith) in
    let y = symbol_lem (a % 4 * 16 + b / 16) (omega arith) in
    let z = symbol_lem (b % 16 * 4) (omega arith) in rw (x.2, y.2, z.2)
is_ascii-core (a ∷ b ∷ c ∷ rest) h =
    let x = symbol_lem (a / 4) (omega arith) in
    let y = symbol_lem (a % 4 * 16 + b / 16) (omega arith) in
    let z = symbol_lem (b % 16 * 4 + c / 64) (omega arith) in
    let w = symbol_lem (c % 64) (omega arith) in
    rw (x.2, y.2, z.2, w.2) (is_ascii-core rest h.1.1.1)

-- `_b64decode` gives back every list of bytes that `_b64encode` was given.
pub b64decode-b64encode : (bs : Bytes) → IsBytes bs → b64decode (b64encode bs) ≡ some bs
unfolding b64decode b64encode urlsafe_b64decode
b64decode-b64encode bs h =
    let ascii : is_ascii (Text.◌++◌ (core bs) (repeat pad (padding bs))) ≡ true =
      is_ascii-append (core bs) (repeat pad (padding bs))
      ∙ rw (is_ascii-core bs h, is_ascii-repeat (padding bs)) in
    rw (rstrip-core bs h, count-core bs, ascii) (a2b-core bs 0 h)
