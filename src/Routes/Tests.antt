-- ===== src/Routes/Tests.antt =====
-- Each theorem on the routes at an input that meets its hypotheses.
use ioka.Prelude.{ℕ, String, ◌≡◌, refl, some, [], ◌∷◌, suc}
use ioka.Prelude.Int.{pos, ◌-ℤ◌}
use ioka.Prelude.Rows.{scalar, modify}
use ioka.Json.{nil}
use ioka.Domain.Enums.{pending, issuing, captured}
use ioka.Domain.Provider.{AirlineProvider, ProviderOffer, returned}
use ioka.Exceptions.{Result, ok}
use ioka.Models.{Db, Order, FlightSearch}
use ioka.Audit.{add_status_audit, add_provider_audit}
use ioka.Booking.Issue.{begin_issue}
use ioka.Booking.Settle.{Issued, issue_with, issue_order, finish_issue, complete_issue}
use ioka.Search.Process.{process, add_offers, offer_row}
use ioka.Tickets.{ticket_rows}
use ioka.Routes.{poll_offer_search, get_ticket}
use ioka.Json.{Fields}
use ioka.Domain.Calendar.{has_passed}
use ioka.Booking.Idempotency.{idempotent_order}
use ioka.Booking.Create.{create_order, new_order, finish_booking, save_order, bookable_offer}
use ioka.Schemas.Validation.{validate_order, validate_passenger, text_field}
use ioka.Schemas.Responses.{order_out}
use ioka.Routes.Handlers.{create_order_handler}
use ioka.Routes.Handlers.Orders.{create_order_handler-create_order_handler}
use ioka.Fixture.{payload}
use ioka.Fixture.Libraries.{methods}
use ioka.Schemas.Validation.{sized}
use ioka.Schemas.Responses.{Timestamps, IssueResult}
use ioka.Routes.Handlers.{answered, issue_result, issue_order_handler}
use ioka.Routes.Handlers.Orders.{IsSettled, issue_order_handler-IsSettled}
use ioka.Routes.Answers.{get_ticket-issue_order, poll_failed, poll_completed, seen, found_offers}
use ioka.Fixture.{
  fresh_db, booked_db, agent, search, offer, order, passenger, moment, booking, ticket, unavailable,
  constant_provider, at_time,
}

abbrev hopeful : AirlineProvider ℕ
hopeful = constant_provider (returned booking) (returned ticket)

abbrev issued_once : Result Issued × Db × ℕ
issued_once = issue_order hopeful "agent-1" "order-1" "issue-key-1" 5 booked_db 0

abbrev issued_order : Order
issued_order =
    issue_with ticket
      (record order { status = issuing; issue_idempotency_key = some "issue-key-1" })

issue_succeeds :
    issued_once
    ≡ (ok (issued_order, record agent { balance = pos 400000000 }, captured), issued_once.1, 1)
unfolding issue_order begin_issue finish_issue complete_issue scalar modify ◌-ℤ◌ add_status_audit
    add_provider_audit
issue_succeeds = refl

get_ticket-issue_order_example :
    get_ticket "order-1" "agent-1" issued_once.1
    ≡ ok (ticket_rows issued_order offer "ALI" "KARIMOV")
unfolding issue_order begin_issue finish_issue complete_issue scalar modify add_status_audit
    add_provider_audit
get_ticket-issue_order_example =
    get_ticket-issue_order hopeful "agent-1" "order-1" "issue-key-1" 5 booked_db 0 issue_succeeds
      refl passenger refl offer refl

abbrev times : Timestamps
times = record { created_at = at_time 0; updated_at = at_time 1 }

abbrev issue_answer : IssueResult
issue_answer = issue_result times (issued_order, record agent { balance = pos 400000000 }, captured)

handler_succeeds :
    issue_order_handler hopeful times 5 "order-1" "issue-key-1" (ok agent) (booked_db, 0)
    ≡ (answered issue_answer, (issued_once.1, 1))
unfolding issue_order_handler sized
handler_succeeds = rw issue_succeeds refl

issue_order_handler-IsSettled_example :
    IsSettled hopeful times "order-1" agent issue_answer issued_once.1
issue_order_handler-IsSettled_example =
    issue_order_handler-IsSettled hopeful times 5 "order-1" "issue-key-1" agent booked_db 0
      issue_answer issued_once.1 1 handler_succeeds

-- a hash that tells no two bodies apart
abbrev one_hash : Fields → String
one_hash fields = "h1"

abbrev placed : Order
placed = new_order moment "agent-1" payload offer booking

abbrev created : Result Order × Db × ℕ
created = create_order hopeful one_hash moment "agent-1" payload "create-key-1" fresh_db 0

creates :
    create_order_handler hopeful one_hash methods times moment payload "create-key-1"
      (ok agent)
      (fresh_db, 0)
    ≡ (answered (order_out times placed), (created.1, 1))
unfolding create_order_handler validate_order validate_passenger text_field sized create_order
    bookable_offer has_passed finish_booking save_order scalar idempotent_order
creates = refl

create_order_handler-create_order_handler_example :
    create_order_handler hopeful one_hash methods times moment payload "create-key-1"
      (ok agent)
      (created.1, 7)
    ≡ (answered (order_out times placed), (created.1, 7))
create_order_handler-create_order_handler_example =
    create_order_handler-create_order_handler hopeful one_hash methods times moment payload
      "create-key-1" agent fresh_db 0 (order_out times placed) created.1 1 creates moment 7

abbrev waiting : FlightSearch
waiting = record search { id = "search-2"; status = pending }

abbrev waiting_db : Db
waiting_db = record fresh_db { searches = search ∷ waiting ∷ [] }

abbrev failing : AirlineProvider ℕ
failing = record hopeful { search = λ request s. (unavailable, suc s) }

abbrev uuids : ℕ → String
uuids n = "uuid"

poll_failed_example :
    poll_offer_search "search-2" "agent-1"
      (process "duplicate key" failing moment uuids "search-2" waiting_db 0).0
    ≡ ok (
        seen waiting unavailable
          (process "duplicate key" failing moment uuids "search-2" waiting_db 0).0)
unfolding scalar
poll_failed_example =
    poll_failed "duplicate key" failing moment uuids waiting_db 0 waiting refl refl unavailable refl
      refl

abbrev item : ProviderOffer
item = record {
  provider_offer_id = "offer-2";
  origin = "TAS";
  destination = "IST";
  departure_at = at_time 5000000000;
  arrival_at = at_time 6000000000;
  carrier = "Ioka Airways";
  flight_number = "IO210";
  fare_family = "BASIC";
  baggage = "Carry-on 8 kg";
  total_amount = pos 65000000;
  currency = "UZS";
  expires_at = at_time 900000000;
  raw_payload = nil;
}

abbrev finding : AirlineProvider ℕ
finding = record hopeful { search = λ request s. (returned (item ∷ []), suc s) }

poll_completed_example :
    poll_offer_search "search-2" "agent-1"
      (process "duplicate key" finding moment uuids "search-2" waiting_db 0).0
    ≡ ok (found_offers moment uuids "mock-air" waiting (item ∷ []) waiting_db)
unfolding scalar add_offers offer_row
poll_completed_example =
    poll_completed "duplicate key" finding moment uuids waiting_db 0 waiting refl refl (item ∷ []) 1
      _ refl refl refl
