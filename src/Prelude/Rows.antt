-- ===== src/Prelude/Rows.antt =====
-- A database table as the list of its rows, oldest first, and what a session does with one.
-- `scalar p` is `await session.scalar(select(T).where(p))`; `modify p f` is the UPDATE that a
-- commit sends for the row that `scalar p` returned, its attributes assigned as `f` does.
use mathlib.Core.Path.{◌≡◌, refl, ap}
use mathlib.Core.Logic.{◌⊎◌, inl, inr}
use mathlib.Core.Bool.{Bool, true, false}
use mathlib.Core.Option
use mathlib.Core.Option.{Option, none, some}
use mathlib.Core.List.{List, [], ◌∷◌, ◌++◌}
use native.Mathlib.Omega.{arith}
use Prim.Native.String.{String}
use text.Mathlib.Text.{◌==◌}
use text.Mathlib.TextEquality.{eq_iff}
use ioka.Prelude.Tests.{if◌then◌else◌, Bool-cases}
use ioka.Prelude.Text.{eq_of_test}
use ioka.Prelude.Lists.{any}
use ioka.Prelude.Int.{ℤ, pos, ◌+ℤ◌, pos_part, neg_part, int_laws}

module _ {ℓ} {A : Type ℓ} where
  unfoldable pub scalar : (A → Bool) → List A → Option A
  scalar p [] = none
  scalar p (x ∷ xs) = if p x then some x else scalar p xs

  unfoldable pub modify : (A → Bool) → (A → A) → List A → List A
  modify p f [] = []
  modify p f (x ∷ xs) = if p x then f x ∷ xs else x ∷ modify p f xs

  -- the rows of a relationship
  abbrev pub select : (A → Bool) → List A → List A
  select p [] = []
  select p (x ∷ xs) = let rest = select p xs in if p x then x ∷ rest else rest

  abbrev pub or_else : Option A → Option A → Option A
  or_else none b = b
  or_else (some a) b = some a

  pub scalar-holds : (p : A → Bool) (xs : List A) (x : A) → scalar p xs ≡ some x → p x ≡ true
  unfolding scalar
  scalar-holds p [] x e = cc
  scalar-holds p (y ∷ ys) x e = ground (arith, scalar-holds p ys x)

  pub scalar-append :
      (p : A → Bool) (xs ys : List A) → scalar p (xs ++ ys) ≡ or_else (scalar p xs) (scalar p ys)
  unfolding scalar
  scalar-append p [] ys = refl
  scalar-append p (x ∷ xs) ys = ground (arith, scalar-append p xs ys)

  -- The row that was found is found again, changed.
  pub scalar-modify_self :
      (p : A → Bool) (f : A → A) (xs : List A)
      → ((x : A) → p (f x) ≡ p x)
      → scalar p (modify p f xs) ≡ Option.map f (scalar p xs)
  unfolding scalar modify
  scalar-modify_self p f [] keeps = refl
  scalar-modify_self p f (x ∷ xs) keeps = ground (arith, keeps x, scalar-modify_self p f xs keeps)

  -- A search that no row of the other can answer sees no change.
  pub scalar-modify_ne :
      (p q : A → Bool) (f : A → A) (xs : List A)
      → ((x : A) → q (f x) ≡ q x)
      → ((x : A) → p x ≡ true → q x ≡ false)
      → scalar q (modify p f xs) ≡ scalar q xs
  unfolding scalar modify
  scalar-modify_ne p q f [] keeps apart = refl
  scalar-modify_ne p q f (x ∷ xs) keeps apart =
      ground (arith, keeps x, apart x, scalar-modify_ne p q f xs keeps apart)

  -- Whatever is found after an update is an old row or what became of one.
  pub scalar-modify_old :
      (p q : A → Bool) (f : A → A) (xs : List A) (y : A)
      → ((x : A) → q (f x) ≡ q x)
      → scalar q (modify p f xs) ≡ some y
      → (x : A) × (scalar q xs ≡ some x) × ((y ≡ x) ⊎ (y ≡ f x))
  unfolding scalar modify
  scalar-modify_old p q f [] y keeps e = cc
  scalar-modify_old p q f (x ∷ xs) y keeps e = elim (Bool-cases (p x)) [
    | inl hit ↦ elim (Bool-cases (q x)) [
      | inl found ↦ (x, rw found, inr (ground (arith, keeps x)))
      | inr other ↦ (y, ground (arith, keeps x), inl refl)
    ]
    | inr miss ↦ elim (Bool-cases (q x)) [
      | inl found ↦ (x, rw found, inl (ground arith))
      | inr other ↦
          let (z, old, r) = scalar-modify_old p q f xs y keeps (ground arith) in
          (z, rw (other, scalar) old, r)
    ]
  ]

  -- `any` is whether a row is found.
  pub scalar-eq-none : (p : A → Bool) (xs : List A) → any p xs ≡ false → scalar p xs ≡ none
  unfolding scalar
  scalar-eq-none p [] h = refl
  scalar-eq-none p (x ∷ xs) h = ground (arith, scalar-eq-none p xs)

  pub any-of_none : (p : A → Bool) (xs : List A) → scalar p xs ≡ none → any p xs ≡ false
  unfolding scalar
  any-of_none p [] e = refl
  any-of_none p (x ∷ xs) e = ground (arith, any-of_none p xs)

  pub scalar-of_any :
      (p : A → Bool) (xs : List A) → any p xs ≡ true → (x : A) × (scalar p xs ≡ some x)
  unfolding scalar
  scalar-of_any p [] h = cc
  scalar-of_any p (x ∷ xs) h = elim (Bool-cases (p x)) [
    | inl hit ↦ (x, rw hit)
    | inr miss ↦ let (y, e) = scalar-of_any p xs (ground arith) in (y, rw (miss, scalar) e)
  ]

  pub scalar_unique :
      (p : A → Bool) (xs : List A) (x y : A) → scalar p xs ≡ some x → scalar p xs ≡ some y → x ≡ y
  scalar_unique p xs x y ex ey = cc

  -- A finer condition that the first row meets selects the same row.
  pub modify-finer :
      (p q : A → Bool) (f : A → A) (xs : List A) (x : A)
      → scalar p xs ≡ some x
      → q x ≡ true
      → ((y : A) → q y ≡ true → p y ≡ true)
      → modify p f xs ≡ modify q f xs
  unfolding scalar modify
  modify-finer p q f [] x e hit finer = refl
  modify-finer p q f (y ∷ ys) x e hit finer = elim (Bool-cases (p y)) [
    | inl found ↦ rw (found, q_of found)
    | inr miss ↦ ground (arith, finer y, modify-finer p q f ys x (rw miss at e) hit finer)
  ]
    where
      q_of : p y ≡ true → q y ≡ true
      q_of found = ground arith

  pub scalar-finer :
      (p q : A → Bool) (xs : List A) (x : A)
      → scalar p xs ≡ some x
      → q x ≡ true
      → ((y : A) → q y ≡ true → p y ≡ true)
      → scalar q xs ≡ some x
  unfolding scalar
  scalar-finer p q [] x e hit finer = cc
  scalar-finer p q (y ∷ ys) x e hit finer =
      ground (arith, finer y, λ (r : scalar p ys ≡ some x). scalar-finer p q ys x r hit finer)

  -- The rows under a key after the row of key `k` has changed.
  pub scalar-modify_key :
      (key : A → String) (a k : String) (f : A → A) (xs : List A)
      → ((x : A) → key (f x) ≡ key x)
      → scalar (λ x. key x == a) (modify (λ x. key x == k) f xs) ≡ (
          if k == a
          then Option.map f (scalar (λ x. key x == a) xs)
          else scalar (λ x. key x == a) xs)
  scalar-modify_key key a k f xs keeps = elim (Bool-cases (k == a)) [
    | inl same ↦
        rw (same, eq_of_test k a same) (scalar-modify_self (λ x. key x == a) f xs λ x. rw (keeps x))
    | inr other ↦ rw other (
        scalar-modify_ne (λ x. key x == k) (λ x. key x == a) f xs (λ x. rw (keeps x))
          (λ x e. ground (arith, eq_iff (key x) k, eq_iff (key x) a, eq_iff k a)))
  ]

add_front : (a b c d e : ℤ) → b +ℤ c ≡ d +ℤ e → (a +ℤ b) +ℤ c ≡ (a +ℤ d) +ℤ e
add_front a b c d e h = omega (int_laws, ap pos_part h, ap neg_part h)

module _ {ℓ} {A : Type ℓ} where
  unfoldable pub sum_by : (A → ℤ) → List A → ℤ
  sum_by w [] = pos 0
  sum_by w (x ∷ xs) = w x +ℤ sum_by w xs

  pub sum_by-append :
      (w : A → ℤ) (xs ys : List A) → sum_by w (xs ++ ys) ≡ sum_by w xs +ℤ sum_by w ys
  unfolding sum_by
  sum_by-append w [] ys = omega int_laws
  sum_by-append w (x ∷ xs) ys = rw (sum_by-append w xs ys) (omega int_laws)

  -- An update changes a sum by the difference of the one row.
  pub sum_by-modify :
      (w : A → ℤ) (p : A → Bool) (f : A → A) (xs : List A) (x : A)
      → scalar p xs ≡ some x
      → sum_by w (modify p f xs) +ℤ w x ≡ sum_by w xs +ℤ w (f x)
  unfolding sum_by scalar modify
  sum_by-modify w p f [] x e = cc
  sum_by-modify w p f (y ∷ ys) x e = elim (Bool-cases (p y)) [
    | inl hit ↦ rw (hit, ← found hit) (omega int_laws)
    | inr miss ↦ rw miss (add_front _ _ _ _ _ (sum_by-modify w p f ys x (rw miss at e)))
  ]
    where
      found : p y ≡ true → y ≡ x
      found hit = ground arith
