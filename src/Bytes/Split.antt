-- ===== src/Bytes/Split.antt =====
-- Splitting a text that was joined.
use Prim.Native.String as Text
use Prim.Native.Char.{Char, code}
use text.Mathlib.TextLemmas.{cons-append, nil-append}
use ioka.Prelude.{ℕ, ◌≡◌, refl, String, true, Option, some, [], ◌∷◌, eqb, arith}
use ioka.Bytes.{is_free, may_split, one_less, split}

-- The part before a separator, and the rest split on.
pub split-append :
    (limit : Option ℕ) (sep : ℕ) (word : String) (mark : Char) (rest : String)
    → may_split limit ≡ true
    → eqb (code mark) sep ≡ true
    → is_free sep word ≡ true
    → split limit sep (Text.◌++◌ word (Text.◌∷◌ mark rest)) ≡ word ∷ split (one_less limit) sep rest
unfolding split
split-append limit sep Text.[] mark rest may at free =
    rw (nil-append (Text.◌∷◌ mark rest)) (rw (may, at))
split-append limit sep (Text.◌∷◌ c word) mark rest may at free =
    let tail = split-append limit sep word mark rest may at (ground arith) in
    rw (cons-append c word (Text.◌∷◌ mark rest)) (rw tail (ground arith))

-- The last part.
pub split_free :
    (limit : Option ℕ) (sep : ℕ) (word : String)
    → is_free sep word ≡ true
    → split limit sep word ≡ word ∷ []
unfolding split
split_free limit sep Text.[] free = refl
split_free limit sep (Text.◌∷◌ c word) free =
    let tail = split_free limit sep word (ground arith) in rw tail (ground arith)

-- With no split left, a text is its own last part.
pub split_done : (sep : ℕ) (word : String) → split (some 0) sep word ≡ word ∷ []
unfolding split
split_done sep Text.[] = refl
split_done sep (Text.◌∷◌ c word) = rw (split_done sep word)
