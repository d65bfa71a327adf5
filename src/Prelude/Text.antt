-- ===== src/Prelude/Text.antt =====
-- Comparison of the texts that serve as identifiers and keys.
use Prim.Native.String.{String}
use mathlib.Core.Path.{◌≡◌}
use mathlib.Core.Logic.{◌≢◌, ◌⊎◌, inl, inr}
use mathlib.Core.Bool.{Bool, true, false, not}
use mathlib.Core.Option.{Option, none, some}
use native.Mathlib.Omega.{arith}
use text.Mathlib.Text.{◌==◌}
use ioka.Prelude.Tests.{Bool-cases}
use text.Mathlib.TextEquality.{eq_iff}

pub eq_of_test : (s t : String) → (s == t) ≡ true → s ≡ t
eq_of_test s t h = (eq_iff s t).0 h

pub test_of_ne : (s t : String) → s ≢ t → (s == t) ≡ false
test_of_ne s t h = ground (arith, eq_iff s t)

pub eq_symm : (s t : String) → (s == t) ≡ (t == s)
eq_symm s t = ground (arith, eq_iff s t, eq_iff t s)

-- Python's truth of an optional text: neither `None` nor the empty text.
abbrev pub truthy : Option String → Bool
truthy none = false
truthy (some s) = not (s == "")

-- An optional text is a given one.
abbrev pub is_text : String → Option String → Bool
is_text s none = false
is_text s (some t) = t == s

pub eq-cases : (s t : String) → (s ≡ t) ⊎ (s ≢ t)
eq-cases s t = elim (Bool-cases (s == t)) [
  | inl same ↦ inl (eq_of_test s t same)
  | inr other ↦ inr (ground (arith, eq_iff s t))
]
