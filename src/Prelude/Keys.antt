-- ===== src/Prelude/Keys.antt =====
-- The constraints of a database on the rows of its tables, and how inserts and updates keep them: a
-- foreign key, whose value is the key of a row of another table, and a unique constraint, under
-- which no two rows clash.
use mathlib.Core.Path.{◌≡◌, refl, ◌∙◌}
use mathlib.Core.Logic.{inl, inr}
use mathlib.Core.Bool.{Bool, true, false, not, ◌&&◌}
use mathlib.Core.Option.{Option, none, some}
use mathlib.Core.List.{List, [], ◌∷◌, ◌++◌}
use native.Mathlib.Omega.{arith}
use Prim.Native.String.{String}
use text.Mathlib.Text.{◌==◌}
use text.Mathlib.TextEquality.{eq_iff}
use ioka.Prelude.Tests.{Bool-cases}
use ioka.Prelude.Text.{is_text}
use ioka.Prelude.Lists.{any, any-append}
use ioka.Prelude.Rows.{scalar, modify}
use ioka.Prelude.Each.{Each, Each-append, Each-modify}

module _ {ℓ} {A : Type ℓ} where
  pub any-append_left : (p : A → Bool) (xs ys : List A) → any p xs ≡ true → any p (xs ++ ys) ≡ true
  any-append_left p xs ys h = rw (any-append p xs ys, h) refl

  pub any-modify :
      (p q : A → Bool) (f : A → A) (xs : List A)
      → ((x : A) → q (f x) ≡ q x)
      → any q (modify p f xs) ≡ any q xs
  unfolding modify
  any-modify p q f [] keeps = refl
  any-modify p q f (x ∷ xs) keeps = ground (arith, keeps x, any-modify p q f xs keeps)

  -- A row that was found is there, under its key.
  pub any-of_scalar :
      (key : A → String) (p : A → Bool) (xs : List A) (x : A)
      → scalar p xs ≡ some x
      → any (λ y. key y == key x) xs ≡ true
  unfolding scalar
  any-of_scalar key p [] x e = cc
  any-of_scalar key p (y ∷ ys) x e = ground (
    arith,
    eq_iff (key y) (key x),
    eq_iff (key x) (key x),
    λ (r : scalar p ys ≡ some x). any-of_scalar key p ys x r,
  )

  pub any-of_found : (p : A → Bool) (xs : List A) (x : A) → scalar p xs ≡ some x → any p xs ≡ true
  unfolding scalar
  any-of_found p [] x e = cc
  any-of_found p (y ∷ ys) x e = ground (arith, λ (r : scalar p ys ≡ some x). any-of_found p ys x r)

  pub Each-of_any : (p : A → Bool) (xs : List A) → any p xs ≡ false → Each (λ x. p x ≡ false) xs
  Each-of_any p [] h = tt
  Each-of_any p (x ∷ xs) h = (ground arith, Each-of_any p xs (ground arith))

  pub Each-of_all {κ} : (P : A → Type κ) (xs : List A) → ((x : A) → P x) → Each P xs
  Each-of_all P [] all = tt
  Each-of_all P (x ∷ xs) all = (all x, Each-of_all P xs all)

  module _ {κ} (P Q : A → Type κ) where
    pub Each-weaken : (xs : List A) → ((x : A) → P x → Q x) → Each P xs → Each Q xs
    Each-weaken [] weaker h = tt
    Each-weaken (x ∷ xs) weaker h = (weaker x h.0, Each-weaken xs weaker h.1)

    pub Each-zip :
        (R : A → Type κ) (xs : List A)
        → ((x : A) → P x → Q x → R x)
        → Each P xs
        → Each Q xs
        → Each R xs
    Each-zip R [] both h k = tt
    Each-zip R (x ∷ xs) both h k = (both x h.0 k.0, Each-zip R xs both h.1 k.1)

    -- After an update a property holds of the rows that stay by one reason, and of the row that
    -- changes by another.
    pub Each-modify_with :
        (R : A → Type κ) (p : A → Bool) (f : A → A) (xs : List A)
        → ((x : A) → P x → Q x → R x)
        → ((x : A) → P x → Q x → p x ≡ true → R (f x))
        → Each P xs
        → Each Q xs
        → Each R (modify p f xs)
    unfolding modify
    Each-modify_with R p f [] stays changes h k = tt
    Each-modify_with R p f (x ∷ xs) stays changes h k = elim (Bool-cases (p x)) [
      | inl hit ↦ rw hit (changes x h.0 k.0 hit, Each-zip R xs stays h.1 k.1)
      | inr miss ↦ rw miss (stays x h.0 k.0, Each-modify_with R p f xs stays changes h.1 k.1)
    ]

-- `ForeignKey`: the rows `xs` refer by `ref` to the rows `ys`, whose key is `key`.
module _ {ℓ κ} {A : Type ℓ} {B : Type κ} (ref : A → String) (key : B → String) where
  abbrev pub Refers : List A → List B → Type 0
  Refers xs ys = Each (λ x. any (λ y. key y == ref x) ys ≡ true) xs

  pub Refers-add_child :
      (x : A) (xs : List A) (ys : List B)
      → any (λ y. key y == ref x) ys ≡ true
      → Refers xs ys
      → Refers (xs ++ x ∷ []) ys
  Refers-add_child x xs ys stored h =
      Each-append (λ z. any (λ y. key y == ref z) ys ≡ true) xs x h stored

  pub Refers-add_parent :
      (xs : List A) (y : B) (ys : List B) → Refers xs ys → Refers xs (ys ++ y ∷ [])
  Refers-add_parent xs y ys h =
      Each-weaken (λ x. any (λ z. key z == ref x) ys ≡ true)
        (λ x. any (λ z. key z == ref x) (ys ++ y ∷ []) ≡ true) xs
        (λ x k. any-append_left (λ z. key z == ref x) ys (y ∷ []) k) h

  pub Refers-set_child :
      (p : A → Bool) (f : A → A) (xs : List A) (ys : List B)
      → ((x : A) → ref (f x) ≡ ref x)
      → Refers xs ys
      → Refers (modify p f xs) ys
  Refers-set_child p f xs ys keeps h =
      Each-modify (λ x. any (λ y. key y == ref x) ys ≡ true) p f xs (λ x k. rw (keeps x) k) h

  pub Refers-set_parent :
      (p : B → Bool) (f : B → B) (xs : List A) (ys : List B)
      → ((y : B) → key (f y) ≡ key y)
      → Refers xs ys
      → Refers xs (modify p f ys)
  Refers-set_parent p f xs ys keeps h =
      Each-weaken (λ x. any (λ z. key z == ref x) ys ≡ true)
        (λ x. any (λ z. key z == ref x) (modify p f ys) ≡ true) xs
        (λ x k. any-modify p (λ z. key z == ref x) f ys (λ z. rw (keeps z)) ∙ k) h

-- Two optional texts that a unique column does not hold at once; it may hold `NULL` often.
abbrev pub same_text : Option String → Option String → Bool
same_text none o = false
same_text (some s) o = is_text s o

same_text_symm : (o : Option String) (s : String) → same_text o (some s) ≡ is_text s o
same_text_symm none s = refl
same_text_symm (some t) s = ground (arith, eq_iff s t, eq_iff t s)

-- `unique=True`, `UniqueConstraint` or a primary key: no later row clashes with an earlier one.
module _ {ℓ} {A : Type ℓ} (clash : A → A → Bool) where
  abbrev pub NoClash : List A → Type 0
  NoClash [] = Unit {0}
  NoClash (x ∷ xs) = Each (λ y. clash x y ≡ false) xs × NoClash xs

  pub NoClash-append :
      (y : A) (xs : List A) → any (λ x. clash x y) xs ≡ false → NoClash xs → NoClash (xs ++ y ∷ [])
  NoClash-append y [] free h = (tt, tt)
  NoClash-append y (x ∷ xs) free h = (
    Each-append (λ z. clash x z ≡ false) xs y h.0 (ground arith),
    NoClash-append y xs (ground arith) h.1,
  )

  pub NoClash-modify :
      (p : A → Bool) (f : A → A) (xs : List A)
      → ((x y : A) → clash (f x) y ≡ clash x y)
      → ((x y : A) → clash x (f y) ≡ clash x y)
      → NoClash xs
      → NoClash (modify p f xs)
  unfolding modify
  NoClash-modify p f [] left right h = tt
  NoClash-modify p f (x ∷ xs) left right h = elim (Bool-cases (p x)) [
    | inl hit ↦ rw hit (
      Each-weaken (λ y. clash x y ≡ false) (λ y. clash (f x) y ≡ false) xs (λ y k. left x y ∙ k)
          h.0,
      h.1,
    )
    | inr miss ↦ rw miss (
      Each-modify (λ y. clash x y ≡ false) p f xs (λ y k. right x y ∙ k) h.0,
      NoClash-modify p f xs left right h.1,
    )
  ]

-- The row of key `j` takes a value that no row of another key has.
module _ {ℓ} {A : Type ℓ} (key : A → String) (val : A → Option String) (p : A → Bool) (f : A → A)
    (j v : String) (hits : (x : A) → p x ≡ true → (key x == j) ≡ true)
    (sets : (x : A) → val (f x) ≡ some v) where
  apart_left :
      (x y : A)
      → (key x == key y) ≡ false
      → (not (key y == j) && is_text v (val y)) ≡ false
      → (key x == j) ≡ true
      → is_text v (val y) ≡ false
  apart_left x y apart free hit =
      ground (arith, eq_iff (key x) (key y), eq_iff (key y) j, eq_iff (key x) j)

  apart_right :
      (x y : A)
      → (key x == key y) ≡ false
      → (not (key x == j) && is_text v (val x)) ≡ false
      → (key y == j) ≡ true
      → is_text v (val x) ≡ false
  apart_right x y apart free hit =
      ground (arith, eq_iff (key x) (key y), eq_iff (key y) j, eq_iff (key x) j)

  pub NoClash-set :
      (xs : List A)
      → any (λ y. not (key y == j) && is_text v (val y)) xs ≡ false
      → NoClash (λ x y. key x == key y) xs
      → NoClash (λ x y. same_text (val x) (val y)) xs
      → NoClash (λ x y. same_text (val x) (val y)) (modify p f xs)
  unfolding modify
  NoClash-set [] free keys vals = tt
  NoClash-set (x ∷ xs) free keys vals = elim (Bool-cases (p x)) [
    | inl hit ↦ rw hit (alone hit, vals.1)
    | inr miss ↦ rw miss (still, NoClash-set xs (ground arith) keys.1 vals.1)
  ]
    where
      others : Each (λ y. (not (key y == j) && is_text v (val y)) ≡ false) xs
      others = Each-of_any (λ y. not (key y == j) && is_text v (val y)) xs (ground arith)

      first : (not (key x == j) && is_text v (val x)) ≡ false
      first = ground arith

      alone : p x ≡ true → Each (λ y. same_text (val (f x)) (val y) ≡ false) xs
      alone hit = rw (sets x) (
          Each-zip (λ y. (key x == key y) ≡ false)
            (λ y. (not (key y == j) && is_text v (val y)) ≡ false) (λ y. is_text v (val y) ≡ false)
            xs (λ y a b. apart_left x y a b (hits x hit)) keys.0 others)

      changed :
          (y : A) → (key x == key y) ≡ false → p y ≡ true → same_text (val x) (val (f y)) ≡ false
      changed y apart hit =
          rw (sets y) (same_text_symm (val x) v ∙ apart_right x y apart first (hits y hit))

      still : Each (λ y. same_text (val x) (val y) ≡ false) (modify p f xs)
      still =
          Each-modify_with (λ y. same_text (val x) (val y) ≡ false) (λ y. (key x == key y) ≡ false)
            (λ y. same_text (val x) (val y) ≡ false) p f xs (λ y a b. a)
            (λ y a b hit. changed y b hit) vals.0 keys.0
