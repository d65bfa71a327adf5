-- ===== src/Search/Tests.antt =====
-- Runs of `SearchService`, as tests/test_search.py makes them, and each theorem on searches at an
-- input that meets its hypotheses.
use ioka.Prelude.{ℕ, String, ◌≡◌, refl, true, none, List, [], ◌∷◌, zero, suc}
use ioka.Prelude.Int.{pos}
use ioka.Prelude.Rows.{scalar}
use ioka.Json.{nil, search_message}
use ioka.Cache.{JsonLibrary, answered}
use ioka.Broker.{acked}
use ioka.Domain.Enums.{pending}
use ioka.Domain.Provider.{AirlineProvider, ProviderOffer, Outcome, returned, timed_out}
use ioka.Models.{Db, FlightSearch}
use ioka.Search.Process.{process, finish_search, add_offers, offer_row, search_request}
use ioka.Search.Process.Ending.{offer_rows}
use ioka.Search.Process.Redelivery.{process-process}
use ioka.Search.Process.Catalog.{is_catalog, process-is_catalog}
use ioka.Search.Process.Race.{IsOverwritten, finish_search-IsOverwritten}
use ioka.Search.Worker.{work, work-work}
use ioka.Fixture.{fresh_db, search, at_time, moment, unavailable, constant_provider}

abbrev waiting : FlightSearch
waiting = record search { id = "search-2"; status = pending; completed_at = none }

abbrev waiting_db : Db
waiting_db = record fresh_db { searches = search ∷ waiting ∷ [] }

abbrev item : String → ProviderOffer
item id = record {
  provider_offer_id = id;
  origin = "TAS";
  destination = "IST";
  departure_at = at_time 5000000000;
  arrival_at = at_time 6000000000;
  carrier = "Ioka Airways";
  flight_number = "IO210";
  fare_family = "BASIC";
  baggage = "Carry-on 8 kg";
  total_amount = pos 65000000;
  currency = "UZS";
  expires_at = at_time 900000000;
  raw_payload = nil;
}

abbrev found_items : List ProviderOffer
found_items = item "offer-2" ∷ item "offer-3" ∷ []

abbrev uuids : ℕ → String
uuids zero = "uuid-0"
uuids (suc zero) = "uuid-1"
uuids (suc (suc n)) = "uuid-2"

abbrev later_uuids : ℕ → String
later_uuids zero = "uuid-3"
later_uuids (suc n) = "uuid-4"

-- A provider that answers every search the same way, and counts its calls.
abbrev searching : Outcome (List ProviderOffer) → AirlineProvider ℕ
searching outcome = record (constant_provider unavailable unavailable) {
  search = λ request s. (outcome, suc s);
}

abbrev conflict_text : String
conflict_text = "UNIQUE constraint failed"

process-process_example :
    process conflict_text
      (searching (timed_out ""))
      moment
      uuids
      "search-2"
      (process conflict_text (searching (timed_out "")) moment uuids "search-2" waiting_db 0).0
      7
    ≡ ((process conflict_text (searching (timed_out "")) moment uuids "search-2" waiting_db 0).0, 7)
process-process_example =
    process-process conflict_text (searching (timed_out "")) moment moment uuids uuids "search-2"
      waiting_db 0 7

process-is_catalog_example :
    is_catalog
      (process conflict_text
        (searching (returned found_items))
        moment
        uuids
        "search-2"
        waiting_db
        0).0.offers
    ≡ true
process-is_catalog_example =
    process-is_catalog conflict_text (searching (returned found_items)) moment uuids "search-2"
      waiting_db 0 refl

-- The database after the first of two deliveries.
abbrev once : Db
once =
    finish_search conflict_text moment uuids "mock-air" "search-2" (search_request waiting)
      (returned found_items) waiting_db

finish_search-IsOverwritten_example :
    IsOverwritten conflict_text moment waiting
      (offer_rows uuids "mock-air" "search-2" 0 found_items)
      waiting_db
      once
      (finish_search conflict_text moment later_uuids "mock-air" "search-2"
        (search_request waiting)
        (returned found_items)
        once)
unfolding scalar add_offers offer_row
finish_search-IsOverwritten_example =
    finish_search-IsOverwritten conflict_text moment moment uuids later_uuids "mock-air"
      (search_request waiting) waiting (item "offer-2") (item "offer-3" ∷ []) _ waiting_db refl refl

-- `json` as far as it is used on one message
abbrev one_message : JsonLibrary
one_message = record {
  dumps = λ fields. "message";
  loads = λ body. answered (search_message "search-2");
}

work-work_example :
    let provider = searching (returned found_items) in
    let (db, s) = process conflict_text provider moment uuids "search-2" waiting_db 0 in
    (work conflict_text provider one_message moment uuids "message" (waiting_db, 0) ≡ acked (db, s))
    × (work conflict_text provider one_message moment later_uuids "message" (db, 7) ≡ acked (db, 7))
work-work_example =
    work-work conflict_text (searching (returned found_items)) one_message "search-2" refl moment
      moment uuids later_uuids waiting_db 0 7
