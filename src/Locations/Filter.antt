-- ===== src/Locations/Filter.antt =====
-- `search_locations` as one filter.
use Prim.Native.String as Text
use ioka.Prelude.{
  ℕ, zero, suc, ◌≡◌, ◌≤◌, refl, String, Bool, true, false, List, [], ◌∷◌, ◌==◌, arith,
  if◌then◌else◌, eq_of_test,
}
use ioka.Prelude.Lists.{length}
use ioka.Prelude.Rows.{select}
use ioka.Bytes.{TextMethods}
use ioka.Locations.{locations, contains, take, joined, matches, search_locations}

module _ {ℓ} {A : Type ℓ} where
  take-whole : (xs : List A) (n : ℕ) → length xs ≤ n → take xs n ≡ xs
  unfolding take
  take-whole [] zero h = refl
  take-whole [] (suc n) h = refl
  take-whole (x ∷ xs) zero h = absurd (omega arith)
  take-whole (x ∷ xs) (suc n) h = rw (take-whole xs n (omega arith)) refl

  length-select : (p : A → Bool) (xs : List A) → length (select p xs) ≤ length xs
  length-select p [] = omega arith
  length-select p (x ∷ xs) = ground (arith, length-select p xs)

  select-all : (p : A → Bool) (xs : List A) → ((x : A) → p x ≡ true) → select p xs ≡ xs
  select-all p [] all = refl
  select-all p (x ∷ xs) all = rw (all x, select-all p xs all) refl

  -- Both cases are the filter, if it takes everything in the first.
  one_filter :
      (xs : List A) (p : A → Bool) (blank : Bool)
      → length xs ≤ 10
      → (blank ≡ true → (x : A) → p x ≡ true)
      → (if blank then take xs 10 else take (select p xs) 20) ≡ select p xs
  one_filter xs p true short all = rw (select-all p xs (all refl)) (take-whole xs 10 short)
  one_filter xs p false short all = take-whole (select p xs) 20 (omega (arith, length-select p xs))

contains_empty : (s : String) → contains "" s ≡ true
unfolding contains
contains_empty Text.[] = refl
contains_empty (Text.◌∷◌ c s) = refl

-- The answer to every query is the locations whose text contains it, both without regard to case and
-- the query stripped: a blank query is contained in all, and the limits cut nothing.
search_locations-select :
    (methods : TextMethods) (query : String)
    → search_locations methods query
      ≡ select (matches methods (methods.casefold (methods.strip query))) locations
unfolding search_locations
search_locations-select methods query =
    one_filter locations (matches methods (methods.casefold (methods.strip query)))
      (methods.casefold (methods.strip query) == "") (omega arith)
      (λ blank item.
        rw (eq_of_test (methods.casefold (methods.strip query)) "" blank)
          (contains_empty (methods.casefold (joined item))))
