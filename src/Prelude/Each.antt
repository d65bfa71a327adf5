-- ===== src/Prelude/Each.antt =====
-- A property of every row of a table.
use Prim.Native.Nat.{ℕ, zero, suc}
use mathlib.Core.Path.{◌≡◌}
use mathlib.Core.Bool.{Bool}
use mathlib.Core.Logic.{inl, inr}
use mathlib.Core.Option.{some}
use mathlib.Core.List.{List, [], ◌∷◌, ◌++◌}
use ioka.Prelude.Tests.{Bool-cases, some-injective}
use ioka.Prelude.Lists.{get_elem?, remove_at}
use ioka.Prelude.Rows.{scalar, modify}
use mathlib.Core.Path.{subst}

module _ {ℓ κ} {A : Type ℓ} (P : A → Type κ) where
  abbrev pub Each : List A → Type κ
  Each [] = Unit {κ}
  Each (x ∷ xs) = P x × Each xs

  pub Each-append : (xs : List A) (y : A) → Each xs → P y → Each (xs ++ y ∷ [])
  Each-append [] y h k = (k, tt)
  Each-append (x ∷ xs) y h k = (h.0, Each-append xs y h.1 k)

  pub Each-scalar : (p : A → Bool) (xs : List A) (x : A) → scalar p xs ≡ some x → Each xs → P x
  unfolding scalar
  Each-scalar p [] x e h = cc
  Each-scalar p (y ∷ ys) x e h = elim (Bool-cases (p y)) [
    | inl hit ↦ subst P (some-injective y x (rw hit at e)) h.0
    | inr miss ↦ Each-scalar p ys x (rw miss at e) h.1
  ]

  pub Each-get : (xs : List A) (n : ℕ) (x : A) → get_elem? xs n ≡ some x → Each xs → P x
  Each-get [] n x e h = cc
  Each-get (y ∷ ys) zero x e h = subst P (some-injective y x e) h.0
  Each-get (y ∷ ys) (suc n) x e h = Each-get ys n x e h.1

  pub Each-remove_at : (xs : List A) (n : ℕ) → Each xs → Each (remove_at xs n)
  Each-remove_at [] n h = tt
  Each-remove_at (x ∷ xs) zero h = h.1
  Each-remove_at (x ∷ xs) (suc n) h = (h.0, Each-remove_at xs n h.1)

  -- Only the row that is found changes.
  pub Each-modify_found :
      (p : A → Bool) (f : A → A) (xs : List A) (x : A)
      → scalar p xs ≡ some x
      → P (f x)
      → Each xs
      → Each (modify p f xs)
  unfolding scalar modify
  Each-modify_found p f [] x e k h = tt
  Each-modify_found p f (y ∷ ys) x e k h = elim (Bool-cases (p y)) [
    | inl hit ↦ rw hit (subst (λ z. P (f z)) (some-injective x y (cc)) k, h.1)
    | inr miss ↦ rw miss (h.0, Each-modify_found p f ys x (rw miss at e) k h.1)
  ]

  pub Each-modify :
      (p : A → Bool) (f : A → A) (xs : List A)
      → ((x : A) → P x → P (f x))
      → Each xs
      → Each (modify p f xs)
  unfolding modify
  Each-modify p f [] keeps h = tt
  Each-modify p f (y ∷ ys) keeps h = elim (Bool-cases (p y)) [
    | inl hit ↦ rw hit (keeps y h.0, h.1)
    | inr miss ↦ rw miss (h.0, Each-modify p f ys keeps h.1)
  ]
