-- ===== src/Search/Process.antt =====
-- `SearchService.process`: the session that starts a search, the provider's call, and the session
-- that stores its offers or, in the `except` branch, its failure. The sessions lock the search's
-- row (`with_for_update`), so each runs as one step on the database.
pub mod Ending
pub mod Redelivery
pub mod Catalog
pub mod Race
use ioka.Prelude.{
  ℕ, suc, String, Bool, true, false, Option, none, some, List, [], ◌∷◌, ◌++◌, ◌==◌, ◌&&◌, ◌||◌,
  if◌then◌else◌,
}
use ioka.Prelude.Lists.{any, length}
use ioka.Prelude.Rows.{scalar, modify}
use ioka.Json.{Fields, text, number, date, nil, field}
use ioka.Domain.Enums.{SearchStatus, in_progress, completed, is_final, search_text}
use ioka.Domain.Provider.{
  AirlineProvider, ProviderSearchRequest, ProviderOffer, Outcome, returned, raised, is_timeout,
  failure_code, failure_message,
}
use ioka.Exceptions.{Result, ok, err, integrity_error}
use ioka.Models.{Db, FlightSearch, Offer, Moment, search_by_id}
use ioka.Audit.{add_status_audit, add_provider_audit, ProviderCall}

abbrev pub start_search : FlightSearch → FlightSearch
start_search search = record search { status = in_progress }

abbrev pub search_request : FlightSearch → ProviderSearchRequest
search_request search = record {
  origin = search.origin;
  destination = search.destination;
  departure_date = search.departure_date;
  adults = search.adults;
  cabin_class = search.cabin_class;
}

-- The first session on the row that it locks; without a request there is nothing to do.
unfoldable pub begin_row : Option FlightSearch → Db → Option ProviderSearchRequest × Db
begin_row none db = (none, db)
begin_row (some search) db = if is_final search.status then (none, db) else (
  some (search_request search),
  add_status_audit "flight_search" search.id "provider_search_started"
      (some (search_text search.status)) (search_text in_progress)
      (record db { searches = modify (search_by_id search.id) start_search db.searches }),
)

unfoldable pub begin_search : String → Db → Option ProviderSearchRequest × Db
unfolding begin_row
begin_search search_id db = begin_row (scalar (search_by_id search_id) db.searches) db

unfoldable pub offer_row : String → String → String → ProviderOffer → Offer
offer_row provider search_id id item = record {
  id = id;
  search_id = search_id;
  provider = provider;
  provider_offer_id = item.provider_offer_id;
  origin = item.origin;
  destination = item.destination;
  departure_at = item.departure_at;
  arrival_at = item.arrival_at;
  carrier = item.carrier;
  flight_number = item.flight_number;
  fare_family = item.fare_family;
  baggage = item.baggage;
  total_amount = item.total_amount;
  currency = item.currency;
  expires_at = item.expires_at;
  raw_payload = item.raw_payload;
}

-- The primary key, and `uq_provider_offer` of app/infrastructure/models.py.
abbrev pub same_offer : Offer → Offer → Bool
same_offer offer o =
    o.id == offer.id
    || (o.provider == offer.provider && o.provider_offer_id == offer.provider_offer_id)

-- The INSERTs of the offers, the n-th with the n-th uuid that the session draws; `none` where one
-- violates a unique constraint.
unfoldable pub add_offers :
    (ℕ → String) → String → String → ℕ → List ProviderOffer → List Offer → Option (List Offer)
add_offers new_id provider search_id n [] rows = some rows
add_offers new_id provider search_id n (item ∷ items) rows =
    let row = offer_row provider search_id (new_id n) item in
    let rest = add_offers new_id provider search_id (suc n) items (rows ++ row ∷ []) in
    if any (same_offer row) rows then none else rest

-- The request that both audit rows of the provider's call hold.
abbrev pub audited_request : ProviderSearchRequest → Fields
audited_request r = field "origin" (text r.origin) (
    field "destination" (text r.destination) (
      field "departure_date" (date r.departure_date)
        (field "adults" (number r.adults) (field "cabin_class" (text r.cabin_class) nil))))

abbrev pub complete : Moment → FlightSearch → FlightSearch
complete at search = record search { status = completed; completed_at = some at.now }

-- What the session that stores `rows` commits.
unfoldable pub completed_search :
    Moment → ProviderSearchRequest → ℕ → FlightSearch → List Offer → Db → Db
completed_search at request offers_count search rows db =
    add_status_audit "flight_search" search.id "provider_search_completed"
      (some (search_text search.status)) (search_text completed)
      (add_provider_audit call (record db {
        searches = modify (search_by_id search.id) (complete at) db.searches;
        offers = rows;
      }))
  where
    call : ProviderCall
    call = record {
      action = "search";
      entity_type = "flight_search";
      entity_id = search.id;
      request_payload = audited_request request;
      response_payload = some (field "offers_count" (number offers_count) nil);
      duration_ms = at.duration_ms;
      status_code = 200;
      error_message = none;
    }

abbrev pub failed_status : Outcome (List ProviderOffer) → SearchStatus
failed_status failure = if is_timeout failure then SearchStatus.timed_out else SearchStatus.failed

abbrev pub fail : Outcome (List ProviderOffer) → FlightSearch → FlightSearch
fail failure search = record search {
  status = failed_status failure;
  error_code = some (if is_timeout failure then "provider_timeout" else "provider_error");
  error_message = some (failure_message failure);
}

-- The `except` branch, on the row that its session locks.
unfoldable pub fail_row :
    Moment → ProviderSearchRequest → Outcome (List ProviderOffer) → Option FlightSearch → Db → Db
fail_row at request failure none db = db
fail_row at request failure (some search) db =
    add_status_audit "flight_search" search.id "provider_search_failed"
      (some (search_text search.status)) (search_text (failed_status failure))
      (add_provider_audit call
        (record db { searches = modify (search_by_id search.id) (fail failure) db.searches }))
  where
    call : ProviderCall
    call = record {
      action = "search";
      entity_type = "flight_search";
      entity_id = search.id;
      request_payload = audited_request request;
      response_payload = none;
      duration_ms = at.duration_ms;
      status_code = failure_code failure;
      error_message = some (failure_message failure);
    }

unfoldable pub fail_search :
    Moment → String → ProviderSearchRequest → Outcome (List ProviderOffer) → Db → Db
unfolding fail_row
fail_search at search_id request failure db =
    fail_row at request failure (scalar (search_by_id search_id) db.searches) db

-- The session that stores the offers; its commit raises if they violate a constraint.
unfoldable pub store_rows :
    Moment → ProviderSearchRequest → ℕ → Option FlightSearch → Option (List Offer) → Db → Result Db
unfolding completed_search
store_rows at request offers_count none rows db = ok db
store_rows at request offers_count (some search) none db = err integrity_error
store_rows at request offers_count (some search) (some rows) db =
    ok (completed_search at request offers_count search rows db)

module _ (integrity_text : String) where
  -- what `asyncio.wait_for` ends with, or the commit of the storing session
  abbrev pub commit_failure : Outcome (List ProviderOffer)
  commit_failure = raised integrity_text "IntegrityError"

  unfoldable pub or_fail : Moment → String → ProviderSearchRequest → Result Db → Db → Db
  or_fail at search_id request (ok db') db = db'
  or_fail at search_id request (err e) db = fail_search at search_id request commit_failure db

  unfoldable pub finish_search :
      Moment
      → (ℕ → String)
      → String
      → String
      → ProviderSearchRequest
      → Outcome (List ProviderOffer)
      → Db
      → Db
  unfolding or_fail
  finish_search at new_id provider search_id request (returned offers) db =
      or_fail at search_id request
        (store_rows at request (length offers) (scalar (search_by_id search_id) db.searches)
          (add_offers new_id provider search_id 0 offers db.offers) db)
        db
  finish_search at new_id provider search_id request failure db =
      fail_search at search_id request failure db

  module _ {S : Type 0} (provider : AirlineProvider S) where
    unfoldable pub call_search :
        Moment → (ℕ → String) → String → Option ProviderSearchRequest → Db → S → Db × S
    call_search at new_id search_id none db s = (db, s)
    call_search at new_id search_id (some request) db s =
        let (answer, s') = provider.search request s in
        (finish_search at new_id provider.name search_id request answer db, s')

    unfoldable pub process : Moment → (ℕ → String) → String → Db → S → Db × S
    unfolding call_search
    process at new_id search_id db s =
        let (request, db') = begin_search search_id db in
        call_search at new_id search_id request db' s
