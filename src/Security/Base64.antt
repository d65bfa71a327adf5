-- ===== src/Security/Base64.antt =====
-- `_b64encode` and `_b64decode` of app/security.py, with the functions of Python's `base64` that they
-- call. `urlsafe_b64decode` is the lenient decoder of `binascii`: it passes over every character
-- that is not of an alphabet, takes both alphabets, and stops at the padding of a full group.
pub mod RoundTrip
use Prim.Native.String as Text
use Prim.Native.Char.{Char, code}
use ioka.Prelude.{
  ℕ, ◌+◌, ◌-◌, ◌*◌, ◌/◌, ◌%◌, String, Bool, true, false, ◌&&◌, ◌||◌, Option, none, some, [], ◌∷◌,
  leb, eqb, if◌then◌else◌,
}
use ioka.Bytes.{Bytes, is_ascii, rstrip, repeat}

abbrev pub alphabet : String
alphabet = "ABCDEFGHIJKLMNOPQRSTUVWXYZabcdefghijklmnopqrstuvwxyz0123456789-_"

-- the character of a value below 64
abbrev pub symbol : ℕ → Char
symbol v = Text.char_at alphabet v

abbrev pub pad : Char
pad = "="

-- Groups of three bytes as four characters each, the last one padded.
unfoldable pub urlsafe_b64encode : Bytes → String
urlsafe_b64encode [] = Text.[]
urlsafe_b64encode (a ∷ []) =
    Text.◌∷◌ (symbol (a / 4)) (Text.◌∷◌ (symbol (a % 4 * 16)) (Text.◌∷◌ pad (Text.◌∷◌ pad Text.[])))
urlsafe_b64encode (a ∷ b ∷ []) = Text.◌∷◌ (symbol (a / 4)) (
    Text.◌∷◌ (symbol (a % 4 * 16 + b / 16)) (Text.◌∷◌ (symbol (b % 16 * 4)) (Text.◌∷◌ pad Text.[])))
urlsafe_b64encode (a ∷ b ∷ c ∷ rest) = Text.◌∷◌ (symbol (a / 4)) (
    Text.◌∷◌ (symbol (a % 4 * 16 + b / 16)) (
      Text.◌∷◌ (symbol (b % 16 * 4 + c / 64))
        (Text.◌∷◌ (symbol (c % 64)) (urlsafe_b64encode rest))))

unfoldable pub b64encode : Bytes → String
b64encode value = rstrip b'=' (urlsafe_b64encode value)

-- The value of a character by its code, in either alphabet.
abbrev pub value_of : ℕ → Option ℕ
value_of c =
    if leb b'A' c && leb c b'Z'
    then some (c - 65)
    else if leb b'a' c && leb c b'z'
    then some (c - 71)
    else if leb b'0' c && leb c b'9'
    then some (c + 4)
    else if eqb c b'-' || eqb c b'+'
    then some 62
    else if eqb c b'_' || eqb c b'/'
    then some 63
    else none

-- Where the decoder stands in a group of four characters, with the bits that are left over.
pub data Quad : Type 0 where
  first : Quad
  second third fourth : ℕ → Quad

-- Only the start of a group is a place to end.
abbrev pub end_of : Quad → Option Bytes
end_of first = some []
end_of _ = none

-- A padding character counts from the third place on.
abbrev pub count_pad : Quad → ℕ → ℕ
count_pad first pads = pads
count_pad (second left) pads = pads
count_pad _ pads = pads + 1

abbrev pub is_full : Quad → ℕ → Bool
is_full (third left) pads = leb 2 pads
is_full (fourth left) pads = leb 1 pads
is_full _ pads = false

abbrev pub next : Quad → ℕ → Quad
next first v = second v
next (second left) v = third (v % 16)
next (third left) v = fourth (v % 4)
next (fourth left) v = first

abbrev pub cons_byte : ℕ → Option Bytes → Option Bytes
cons_byte b none = none
cons_byte b (some bs) = some (b ∷ bs)

abbrev pub emit : Quad → ℕ → Option Bytes → Option Bytes
emit first v rest = rest
emit (second left) v rest = cons_byte (left * 4 + v / 16) rest
emit (third left) v rest = cons_byte (left * 16 + v / 4) rest
emit (fourth left) v rest = cons_byte (left * 64 + v) rest

-- `binascii.a2b_base64`, not strict
unfoldable pub a2b : Quad → ℕ → String → Option Bytes
a2b q pads Text.[] = end_of q
a2b q pads (Text.◌∷◌ c s) =
    let padded = count_pad q pads in
    elim (eqb (code c) b'=') [
      | true ↦ elim (is_full q padded) [ true ↦ some [] | false ↦ a2b q padded s ]
      | false ↦ elim (value_of (code c)) [
        | none ↦ a2b q pads s
        | some v ↦ emit q v (a2b (next q v) 0 s)
      ]
    ]

unfoldable pub urlsafe_b64decode : String → Option Bytes
unfolding a2b
urlsafe_b64decode s = if is_ascii s then a2b first 0 s else none

unfoldable pub b64decode : String → Option Bytes
unfolding urlsafe_b64decode
b64decode value = urlsafe_b64decode (Text.◌++◌ value (repeat pad ((4 - Text.count value % 4) % 4)))
