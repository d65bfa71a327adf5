-- ===== src/Booking/Create.antt =====
-- `BookingService.create_order` and `get_order`. A session's writes reach the database at its
-- commit, all or none; the provider is called between two sessions.
pub mod Replay
pub mod Answers
use ioka.Prelude.{
  ℕ, String, Bool, Option, none, some, [], ◌∷◌, ◌++◌, ◌==◌, ◌&&◌, ◌||◌, if◌then◌else◌,
}
use ioka.Prelude.Lists.{any}
use ioka.Prelude.Rows.{scalar}
use ioka.Json.{Fields, text, nil, field}
use ioka.Domain.Calendar.{has_passed}
use ioka.Domain.Enums.{booked, order_text}
use ioka.Domain.Provider.{
  AirlineProvider, ProviderBooking, Outcome, returned, failure_code, failure_message,
}
use ioka.Exceptions.{
  Result, ok, err, error, integrity_error, not_found, conflict, provider_error, ◌>>=◌, ◌>>◌,
  raise_if, or_raise,
}
use ioka.Models.{Db, Offer, Order, IdempotencyRecord, Moment, owned_order}
use ioka.Audit.{add_status_audit, add_provider_audit, ProviderCall}
use ioka.Schemas.{OrderCreate, dump_passenger, dump_order}
use ioka.Booking.Idempotency.{recorded, idempotent_order}

-- `select(Offer).join(FlightSearch).where(Offer.id == …, FlightSearch.agent_id == …)`
abbrev pub offered_to : String → String → Db → Offer → Bool
offered_to agent_id offer_id db o =
    o.id == offer_id && any (λ s. s.id == o.search_id && s.agent_id == agent_id) db.searches

unfoldable pub bookable_offer : Moment → String → String → Db → Result Offer
bookable_offer at agent_id offer_id db = do
  offer ←
      or_raise (scalar (offered_to agent_id offer_id db) db.offers)
        (error not_found "Offer not found")
  raise_if (has_passed offer.expires_at at.now) (error conflict "Offer has expired")
  ok offer

-- `{"offer_id": offer.id, "idempotency_key": idempotency_key}`
abbrev pub book_request : Offer → String → Fields
book_request offer key = field "offer_id" (text offer.id) (field "idempotency_key" (text key) nil)

-- The `except` branch: the failed call is audited and committed.
unfoldable pub audit_failed_booking : Moment → Offer → String → Outcome ProviderBooking → Db → Db
audit_failed_booking at offer key failure = add_provider_audit (record {
  action = "book";
  entity_type = "offer";
  entity_id = offer.id;
  request_payload = book_request offer key;
  response_payload = none;
  duration_ms = at.duration_ms;
  status_code = failure_code failure;
  error_message = some (failure_message failure);
})

-- `flush` sends the INSERT of the order: its primary key and its booking reference are unique.
abbrev pub same_order : Order → Order → Bool
same_order order o = o.id == order.id || o.booking_reference == order.booking_reference

unfoldable pub new_order : Moment → String → OrderCreate → Offer → ProviderBooking → Order
new_order at agent_id payload offer booking = record {
  id = at.new_id;
  agent_id = agent_id;
  offer_id = offer.id;
  status = booked;
  passenger = dump_passenger payload.passenger;
  amount = offer.total_amount;
  currency = offer.currency;
  provider_booking_id = booking.provider_booking_id;
  booking_reference = booking.booking_reference;
  issue_idempotency_key = none;
  ticket_number = none;
  issued_at = none;
}

unfoldable pub new_record : String → String → String → Order → IdempotencyRecord
new_record agent_id key payload_hash order = record {
  agent_id = agent_id;
  scope = "create_order";
  key = key;
  request_hash = payload_hash;
  resource_type = "order";
  resource_id = order.id;
}

-- The rows that the session adds beside the order.
unfoldable pub add_booking : Moment → String → String → String → Offer → Order → Db → Db
unfolding new_record
add_booking at agent_id key payload_hash offer order db =
    add_status_audit "order" order.id "order_booked" none (order_text booked) (
      add_provider_audit call (record db {
        orders = db.orders ++ order ∷ [];
        idempotency_records =
            db.idempotency_records ++ new_record agent_id key payload_hash order ∷ [];
      }))
  where
    call : ProviderCall
    call = record {
      action = "book";
      entity_type = "order";
      entity_id = order.id;
      request_payload = book_request offer key;
      response_payload = some (field "provider_booking_id" (text order.provider_booking_id) nil);
      duration_ms = at.duration_ms;
      status_code = 200;
      error_message = none;
    }

-- After the rollback of a commit that raised `IntegrityError`.
unfoldable pub replay_or_raise : Result (Option Order) → Result Order
replay_or_raise (err e) = err e
replay_or_raise (ok none) = err integrity_error
replay_or_raise (ok (some order)) = ok order

-- The last session. The `flush` stands before the `try`, so its `IntegrityError` is not caught;
-- the commit's is, where the idempotency record clashes with one of the same key.
unfoldable pub save_order :
    Moment
    → String
    → OrderCreate
    → String
    → String
    → Offer
    → ProviderBooking
    → Db
    → Result Order × Db
unfolding new_order replay_or_raise
save_order at agent_id payload key payload_hash offer booking db =
    let order = new_order at agent_id payload offer booking in
    if any (same_order order) db.orders
    then (err integrity_error, db)
    else if any (recorded agent_id "create_order" key) db.idempotency_records
    then (replay_or_raise (idempotent_order agent_id "create_order" key payload_hash db), db)
    else (ok order, add_booking at agent_id key payload_hash offer order db)

-- What follows the provider's answer.
unfoldable pub finish_booking :
    Moment
    → String
    → OrderCreate
    → String
    → String
    → Offer
    → Outcome ProviderBooking
    → Db
    → Result Order × Db
finish_booking at agent_id payload key payload_hash offer (returned booking) db =
    save_order at agent_id payload key payload_hash offer booking db
finish_booking at agent_id payload key payload_hash offer failure db = (
  err (error provider_error "Airline provider rejected the booking"),
  audit_failed_booking at offer key failure db,
)

module _ {S : Type 0} (provider : AirlineProvider S) (request_hash : Fields → String) where
  -- the order is new: the offer is read, the provider is called, and the answer is stored
  unfoldable pub book_order :
      Moment → String → OrderCreate → String → Result Offer → Db → S → Result Order × Db × S
  book_order at agent_id payload key (err e) db s = (err e, db, s)
  book_order at agent_id payload key (ok offer) db s =
      let (answer, s') =
        provider.book offer.provider_offer_id (dump_passenger payload.passenger) key s in
      let (result, db') =
        finish_booking at agent_id payload key (request_hash (dump_order payload)) offer answer
          db in
      (result, db', s')

  unfoldable pub create_fresh :
      Moment
      → String
      → OrderCreate
      → String
      → Result (Option Order)
      → Db
      → S
      → Result Order × Db × S
  unfolding book_order
  create_fresh at agent_id payload key (err e) db s = (err e, db, s)
  create_fresh at agent_id payload key (ok (some order)) db s = (ok order, db, s)
  create_fresh at agent_id payload key (ok none) db s =
      book_order at agent_id payload key (bookable_offer at agent_id payload.offer_id db) db s

  unfoldable pub create_order :
      Moment → String → OrderCreate → String → Db → S → Result Order × Db × S
  unfolding create_fresh
  create_order at agent_id payload key db s =
      create_fresh at agent_id payload key
        (idempotent_order agent_id "create_order" key (request_hash (dump_order payload)) db) db s

unfoldable pub get_order : String → String → Db → Result Order
get_order agent_id order_id db =
    or_raise (scalar (owned_order agent_id order_id) db.orders) (error not_found "Order not found")
