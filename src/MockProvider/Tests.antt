-- ===== src/MockProvider/Tests.antt =====
-- Calls of the mock provider, and each of its theorems at an input that meets its hypotheses.
use ioka.Prelude.{ℕ, String, ◌≡◌, refl, [], ◌∷◌, map, arith}
use ioka.Prelude.Rows.{scalar}
use ioka.Json.{nil}
use ioka.Domain.Calendar.{combine}
use ioka.Domain.Enums.{pending}
use ioka.Domain.Provider.{ProviderSearchRequest, ProviderOffer, AirlineProvider}
use ioka.Models.{Db, FlightSearch}
use ioka.Search.Process.{search_request, commit_failure, process}
use ioka.Search.Process.Ending.{IsMissed, offer_rows}
use ioka.MockProvider.{
  MockState, base_price, variant_offer, mock_offers, mock_issue, mock_provider, new_booking,
  new_ticket,
}
use ioka.MockProvider.Repeat.{mock_provider_again, process_same_route}
use ioka.MockProvider.Prices.{IsPriced, fare_and_price, mock_offers-IsPriced}
use ioka.Fixture.{fresh_db, search, offer, at_time, moment}

abbrev one_digest : String → String
one_digest text = "00ff89abcdef01234567"

abbrev fresh_state : MockState
fresh_state = record { bookings = []; tickets = [] }

abbrev request : ProviderSearchRequest
request = search_request search

base_price_is : base_price one_digest request ≡ 650255
base_price_is = refl

ids_are :
    map (λ (o : ProviderOffer). o.provider_offer_id) (mock_offers one_digest (at_time 0) request)
    ≡ "00ff89abcdef-0" ∷ "00ff89abcdef-1" ∷ "00ff89abcdef-2" ∷ []
unfolding mock_offers variant_offer
ids_are = refl

-- 2026-10-20T08:30:00Z
departure_is : (combine search.departure_date 8 30).micros ≡ 1792485000000000
unfolding combine
departure_is = refl

ticket_is :
    (mock_issue one_digest (at_time 7) "BKG-1" "key" fresh_state).0
    ≡ record { ticket_number = "250-4287212493"; issued_at = at_time 7 }
unfolding mock_issue new_ticket scalar
ticket_is = refl

reference_is : (new_booking one_digest "key").booking_reference ≡ "00FF89"
unfolding new_booking
reference_is = refl

abbrev first : AirlineProvider MockState
first = mock_provider one_digest (at_time 0)

abbrev again : AirlineProvider MockState
again = mock_provider one_digest (at_time 1)

mock_provider_again_example :
    (again.book "offer-2" nil "key" (first.book "offer-1" nil "key" fresh_state).1
      ≡ first.book "offer-1" nil "key" fresh_state)
    × (again.issue "BKG-2" "key" (first.issue "BKG-1" "key" fresh_state).1
        ≡ first.issue "BKG-1" "key" fresh_state)
mock_provider_again_example =
    mock_provider_again one_digest (at_time 0) (at_time 1) "offer-1" "offer-2" "BKG-1" "BKG-2" "key"
      nil nil fresh_state

mock_offers-IsPriced_example :
    IsPriced 1 (map fare_and_price (mock_offers one_digest (at_time 0) request))
mock_offers-IsPriced_example = mock_offers-IsPriced one_digest (at_time 0) request (omega arith)

abbrev uuids : ℕ → String
uuids n = "uuid"

abbrev waiting : FlightSearch
waiting = record search { id = "search-2"; status = pending; adults = 3 }

-- the offers of the first search are stored
abbrev found_db : Db
found_db = record fresh_db {
  searches = search ∷ waiting ∷ [];
  offers =
      offer ∷ offer_rows uuids "mock-air" "search-1" 0 (mock_offers one_digest (at_time 0) request);
}

process_same_route_example :
    IsMissed
      (commit_failure "duplicate key")
      waiting
      found_db
      (process "duplicate key"
        (mock_provider one_digest (at_time 9))
        moment
        uuids
        "search-2"
        found_db
        fresh_state).0
unfolding scalar mock_offers
process_same_route_example =
    process_same_route one_digest (at_time 0) (at_time 9) "duplicate key" request "search-1" uuids
      uuids (offer ∷ []) [] moment "search-2" found_db fresh_state waiting refl refl refl refl refl
      refl
