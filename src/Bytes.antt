-- ===== src/Bytes.antt =====
-- Bytes, the UTF-8 of a text (`str.encode()`), and the operations on text that split and strip it at
-- one ASCII character. The methods that read the Unicode tables are a parameter.
pub mod Split
use Prim.Native.String as Text
use Prim.Native.Char.{Char, code}
use ioka.Prelude.{
  ℕ, zero, suc, ◌+◌, ◌*◌, ◌/◌, ◌%◌, ◌<◌, String, Bool, true, false, ◌&&◌, not, Option, none, some,
  List, [], ◌∷◌, ltb, eqb, if◌then◌else◌, ◌≡◌, refl, arith, Bool-cases, inl, inr,
}

abbrev pub Bytes : Type 0
Bytes = List ℕ

-- The methods of `str` that read the Unicode tables.
pub record TextMethods : Type 0 where
  pub lower : String → String
  pub upper : String → String
  pub casefold : String → String
  pub strip : String → String
  pub isalpha : String → Bool

-- Each is below 256.
abbrev pub IsBytes : Bytes → Type 0
IsBytes [] = Unit {0}
IsBytes (b ∷ bs) = (b < 256) × IsBytes bs

-- the bytes of one character, by its code point
abbrev pub utf8_char : ℕ → Bytes → Bytes
utf8_char c rest =
    if ltb c 128
    then c ∷ rest
    else if ltb c 2048
    then (192 + c / 64) ∷ (128 + c % 64) ∷ rest
    else if ltb c 65536
    then (224 + c / 4096) ∷ (128 + c / 64 % 64) ∷ (128 + c % 64) ∷ rest
    else (240 + c / 262144) ∷ (128 + c / 4096 % 64) ∷ (128 + c / 64 % 64) ∷ (128 + c % 64) ∷ rest

-- `s.encode()`
unfoldable pub encode : String → Bytes
encode Text.[] = []
encode (Text.◌∷◌ c s) = utf8_char (code c) (encode s)

abbrev pub is_ascii : String → Bool
is_ascii Text.[] = true
is_ascii (Text.◌∷◌ c s) = ltb (code c) 128 && is_ascii s

-- No character of the text is the given one.
abbrev pub is_free : ℕ → String → Bool
is_free sep Text.[] = true
is_free sep (Text.◌∷◌ c s) = not (eqb (code c) sep) && is_free sep s

-- How often a text may still be split; `none` is without a limit.
abbrev pub may_split : Option ℕ → Bool
may_split none = true
may_split (some zero) = false
may_split (some (suc n)) = true

abbrev pub one_less : Option ℕ → Option ℕ
one_less none = none
one_less (some zero) = some zero
one_less (some (suc n)) = some n

abbrev pub push : Char → List String → List String
push c [] = Text.◌∷◌ c Text.[] ∷ []
push c (word ∷ words) = Text.◌∷◌ c word ∷ words

-- `s.split(sep)` and `s.split(sep, n)`
unfoldable pub split : Option ℕ → ℕ → String → List String
split limit sep Text.[] = Text.[] ∷ []
split limit sep (Text.◌∷◌ c s) =
    let here = Text.[] ∷ (split (one_less limit) sep s) in
    let later = push c (split limit sep s) in
    if may_split limit && eqb (code c) sep then here else later

abbrev pub keep : ℕ → Char → String → String
keep sep c Text.[] = if eqb (code c) sep then Text.[] else Text.◌∷◌ c Text.[]
keep sep c (Text.◌∷◌ d s) = Text.◌∷◌ c (Text.◌∷◌ d s)

-- `s.rstrip(sep)`
unfoldable pub rstrip : ℕ → String → String
rstrip sep Text.[] = Text.[]
rstrip sep (Text.◌∷◌ c s) = keep sep c (rstrip sep s)

-- `c * n`
abbrev pub repeat : Char → ℕ → String
repeat c zero = Text.[]
repeat c (suc n) = Text.◌∷◌ c (repeat c n)

-- `hmac.compare_digest(a, b)` of bytes
abbrev pub same_bytes : Bytes → Bytes → Bool
same_bytes [] [] = true
same_bytes [] (b ∷ bs) = false
same_bytes (a ∷ more) [] = false
same_bytes (a ∷ more) (b ∷ bs) = let rest = same_bytes more bs in eqb a b && rest

pub eq_of_same_bytes : (a b : Bytes) → same_bytes a b ≡ true → a ≡ b
eq_of_same_bytes [] [] h = refl
eq_of_same_bytes [] (b ∷ bs) h = cc
eq_of_same_bytes (a ∷ more) [] h = cc
eq_of_same_bytes (a ∷ more) (b ∷ bs) h = ground (arith, eq_of_same_bytes more bs)

pub same_bytes_self : (a : Bytes) → same_bytes a a ≡ true
same_bytes_self [] = refl
same_bytes_self (a ∷ more) = ground (arith, same_bytes_self more)

-- The code of an ASCII character is its byte.
pub encode-IsBytes : (s : String) → is_ascii s ≡ true → IsBytes (encode s)
unfolding encode
encode-IsBytes Text.[] h = tt
encode-IsBytes (Text.◌∷◌ c s) h = elim (Bool-cases (ltb (code c) 128)) [
  | inl small ↦ rw small (ground arith, encode-IsBytes s (ground arith))
  | inr large ↦ ground arith
]
