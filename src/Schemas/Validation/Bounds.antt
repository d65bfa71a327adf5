-- ===== src/Schemas/Validation/Bounds.antt =====
-- What holds of every search that is accepted.
use Prim.Native.String as Text
use ioka.Prelude.{
  some-injective, ℕ, ◌≡◌, ◌≤◌, ◌⊎◌, inl, inr, refl, String, true, false, Option, none, some, ◌==◌,
  arith, Bool-cases, eq_of_test,
}
use mathlib.Core.Path.{subst}
use ioka.Prelude.Int.{ℤ, pos, negsuc}
use ioka.Bytes.{TextMethods, is_ascii}
use ioka.Domain.Calendar.{Date}
use ioka.Schemas.{SearchRequest}
use ioka.Schemas.Validation.{
  SearchBody, sized, adults_field, cabin_field, is_before, ensure_not_in_past, normalize_iata,
  iata_field, validate_search, ◌>>=?◌,
}

-- Of stripping: it takes nothing but characters away. Of upper case: an ASCII text keeps its length.
pub record TextLaws (methods : TextMethods) : Type 0 where
  pub strip_ascii : (s : String) → is_ascii s ≡ true → is_ascii (methods.strip s) ≡ true
  pub strip_count : (s : String) → Text.count (methods.strip s) ≤ Text.count s
  pub upper_count : (s : String) → is_ascii s ≡ true → Text.count (methods.upper s) ≡ Text.count s

-- A request in which every field is in its range.
pub record IsBounded (methods : TextMethods) (today : Date) (request : SearchRequest) : Type 0 where
  pub origin_letters : methods.isalpha request.origin ≡ true
  pub destination_letters : methods.isalpha request.destination ≡ true
  pub origin_width : Text.count request.origin ≤ 3
  pub destination_width : Text.count request.destination ≤ 3
  pub not_past : is_before request.departure_date today ≡ false
  pub some_adults : 1 ≤ request.adults
  pub few_adults : request.adults ≤ 9
  pub cabin :
      (request.cabin_class ≡ "ECONOMY")
      ⊎ (request.cabin_class ≡ "PREMIUM_ECONOMY")
      ⊎ (request.cabin_class ≡ "BUSINESS")

bind-some {ℓ κ} :
    {A : Type ℓ} {B : Type κ} (o : Option A) (f : A → Option B) {x : B}
    → (o >>=? f) ≡ some x
    → (a : A) × (o ≡ some a) × (f a ≡ some x)
bind-some none f h = cc
bind-some (some a) f h = (a, refl, h)

adults_field-bounds : (value : Option ℤ) (n : ℕ) → adults_field value ≡ some n → (1 ≤ n) × (n ≤ 9)
unfolding adults_field
adults_field-bounds none n h = (ground arith, ground arith)
adults_field-bounds (some (negsuc k)) n h = cc
adults_field-bounds (some (pos k)) n h = (ground arith, ground arith)

cabin_field-one :
    (value : Option String) (s : String)
    → cabin_field value ≡ some s
    → (s ≡ "ECONOMY") ⊎ (s ≡ "PREMIUM_ECONOMY") ⊎ (s ≡ "BUSINESS")
unfolding cabin_field
cabin_field-one none s h = inl (ground arith)
cabin_field-one (some t) s h = elim (Bool-cases (t == "ECONOMY")) [
  | inl a ↦ inl (ground (arith, eq_of_test t "ECONOMY" a))
  | inr not_a ↦ elim (Bool-cases (t == "PREMIUM_ECONOMY")) [
    | inl b ↦ inr (inl (ground (arith, eq_of_test t "PREMIUM_ECONOMY" b)))
    | inr not_b ↦ elim (Bool-cases (t == "BUSINESS")) [
      | inl c ↦ inr (inr (ground (arith, eq_of_test t "BUSINESS" c)))
      | inr not_c ↦ ground arith
    ]
  ]
]

ensure_not_in_past-ok :
    (today value found : Date)
    → ensure_not_in_past today value ≡ some found
    → is_before found today ≡ false
unfolding ensure_not_in_past
ensure_not_in_past-ok today value found h = elim (Bool-cases (is_before value today)) [
  | inl past ↦ ground arith
  | inr later ↦ ground arith
]

module _ (methods : TextMethods) (laws : TextLaws methods) where
  iata_field-bounds :
      (value found : String)
      → is_ascii value ≡ true
      → iata_field methods value ≡ some found
      → (methods.isalpha found ≡ true) × (Text.count found ≤ 3)
  unfolding iata_field sized normalize_iata
  iata_field-bounds value found ascii h =
      let (v, is_sized, a) = bind-some (sized 3 3 value) (normalize_iata methods) h in
      let same : value ≡ v = ground arith in
      let short : Text.count value ≤ 3 = ground arith in
      let code : methods.upper (methods.strip value) ≡ found = ground arith in
      let stripped = laws.strip_count value in
      let raised = laws.upper_count (methods.strip value) (laws.strip_ascii value ascii) in
      (ground arith, rw (← code, raised) (omega (arith, stripped, short)))

  -- A search that is accepted has airport codes of letters, no wider than their columns, a day that
  -- is not over, one to nine adults and a known cabin, if the codes came as ASCII texts and under the
  -- laws of stripping and of upper case.
  pub validate_search-IsBounded :
      (today : Date) (body : SearchBody) (request : SearchRequest)
      → is_ascii body.origin ≡ true
      → is_ascii body.destination ≡ true
      → validate_search methods today body ≡ some request
      → IsBounded methods today request
  unfolding validate_search
  validate_search-IsBounded today body request from_ascii to_ascii h =
      let (origin, a, h1) = bind-some (iata_field methods body.origin) _ h in
      let (destination, b, h2) = bind-some (iata_field methods body.destination) _ h1 in
      let (departure_date, c, h3) = bind-some (ensure_not_in_past today body.departure_date) _ h2 in
      let (adults, d, h4) = bind-some (adults_field body.adults) _ h3 in
      let (cabin_class, e, h5) = bind-some (cabin_field body.cabin_class) _ h4 in
      let from = iata_field-bounds body.origin origin from_ascii a in
      let to = iata_field-bounds body.destination destination to_ascii b in
      let adult = adults_field-bounds body.adults adults d in
      subst (IsBounded methods today) (some-injective _ _ h5) (record {
        origin_letters = from.0;
        destination_letters = to.0;
        origin_width = from.1;
        destination_width = to.1;
        not_past = ensure_not_in_past-ok today body.departure_date departure_date c;
        some_adults = adult.0;
        few_adults = adult.1;
        cabin = cabin_field-one body.cabin_class cabin_class e;
      })
