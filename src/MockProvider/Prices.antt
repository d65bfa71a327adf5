-- ===== src/MockProvider/Prices.antt =====
-- The prices that a search brings, in hundredths of the currency's unit.
use native.Mathlib.Nat.{mul-le-mul_right}
use ioka.Prelude.{ℕ, String, ◌≡◌, ◌≤◌, ◌<◌, ◌+◌, ◌*◌, refl, List, [], ◌∷◌, map, arith}
use ioka.Prelude.Int.{ℤ, pos}
use ioka.Domain.Calendar.{Datetime}
use ioka.Domain.Provider.{ProviderSearchRequest, ProviderOffer}
use ioka.MockProvider.{base_price, variant_offer, mock_offers}

abbrev pub fare_and_price : ProviderOffer → String × ℤ
fare_and_price o = (o.fare_family, o.total_amount)

-- Three fares with their prices, each dearer than the one before, the first within bounds.
abbrev pub IsPriced : ℕ → List (String × ℤ) → Type 0
IsPriced adults fares =
    (basic : ℕ) × (flex : ℕ) × (business : ℕ) × (fares
      ≡ ("BASIC", pos basic) ∷ ("FLEX", pos flex) ∷ ("BUSINESS", pos business) ∷ [])
    × (65000000 * adults ≤ basic)
    × (basic ≤ 99999900 * adults)
    × (basic < flex)
    × (flex < business)

dearer : (m n a : ℕ) → m < n → 1 ≤ a → m * a < n * a
dearer m n a h one =
    let k : (m + 1) * a ≤ n * a = mul-le-mul_right a (omega (arith, h)) in omega (arith, k, one)

base_price_bounds :
    (sha256 : String → String) (r : ProviderSearchRequest)
    → (650000 ≤ base_price sha256 r) × (base_price sha256 r ≤ 999999)
base_price_bounds sha256 r = (omega arith, omega arith)

module _ (sha256 : String → String) (now : Datetime) where
  -- For at least one adult a search brings a BASIC, a FLEX and a BUSINESS fare, in this order, each
  -- dearer than the one before; a BASIC seat costs from 650 000 to 999 999 units.
  pub mock_offers-IsPriced :
      (r : ProviderSearchRequest)
      → 1 ≤ r.adults
      → IsPriced r.adults (map fare_and_price (mock_offers sha256 now r))
  unfolding mock_offers variant_offer
  mock_offers-IsPriced r one =
      let (low, high) = base_price_bounds sha256 r in
      let n = base_price sha256 r in
      (
        n * 100 * r.adults,
        n * 125 * r.adults,
        n * 210 * r.adults,
        refl,
        mul-le-mul_right r.adults (omega (arith, low)),
        mul-le-mul_right r.adults (omega (arith, high)),
        dearer (n * 100) (n * 125) r.adults (omega (arith, low)) one,
        dearer (n * 125) (n * 210) r.adults (omega (arith, low)) one,
      )
