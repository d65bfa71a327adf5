-- ===== src/Booking/CreateTests.antt =====
-- Runs of `create_order`, and each of its theorems at an input that meets its hypotheses.
use ioka.Prelude.{ℕ, String, ◌≡◌, refl, [], ◌∷◌}
use ioka.Prelude.Rows.{scalar}
use ioka.Json.{Fields}
use ioka.Domain.Calendar.{has_passed}
use ioka.Domain.Provider.{AirlineProvider, returned}
use ioka.Exceptions.{Result, ok}
use ioka.Models.{Db, Order, IdempotencyRecord, Moment}
use ioka.Booking.Idempotency.{idempotent_order}
use ioka.Booking.Create.{create_order, new_order, finish_booking, save_order, bookable_offer}
use ioka.Booking.Create.Answers.{create_order_failed, create_order-Booked, Rejected, Booked}
use ioka.Fixture.{
  fresh_db, booked_db, offer, payload, moment, booking, ticket, unavailable, constant_provider,
  at_time,
}

abbrev hopeful : AirlineProvider ℕ
hopeful = constant_provider (returned booking) (returned ticket)

abbrev failing : AirlineProvider ℕ
failing = constant_provider unavailable unavailable

-- a hash that tells no two bodies apart, and one that gives another value
abbrev one_hash : Fields → String
one_hash fields = "h1"

abbrev other_hash : Fields → String
other_hash fields = "h2"

abbrev placed : Order
placed = new_order moment "agent-1" payload offer booking

abbrev created : Result Order × Db × ℕ
created = create_order hopeful one_hash moment "agent-1" payload "create-key-1" fresh_db 0

create_succeeds : created ≡ (ok placed, created.1, 1)
unfolding create_order bookable_offer has_passed finish_booking save_order scalar idempotent_order
create_succeeds = refl

abbrev entry : IdempotencyRecord
entry = record {
  agent_id = "agent-1";
  scope = "create_order";
  key = "create-key-1";
  request_hash = "h1";
  resource_type = "order";
  resource_id = "order-1";
}

abbrev used_db : Db
used_db = record booked_db { idempotency_records = entry ∷ [] }

abbrev late : Moment
late = record moment { now = at_time 900000000 }

create_order_failed_example :
    Rejected "agent-1" "create-key-1" "h1" fresh_db 1
      (create_order failing one_hash moment "agent-1" payload "create-key-1" fresh_db 0)
unfolding idempotent_order scalar has_passed
create_order_failed_example =
    create_order_failed failing one_hash moment "agent-1" payload "create-key-1" fresh_db 0 refl
      offer refl refl 1 unavailable refl refl

create_order-Booked_example :
    Booked "agent-1" offer booking placed fresh_db
      (create_order hopeful one_hash moment "agent-1" payload "create-key-1" fresh_db 0)
unfolding idempotent_order scalar has_passed
create_order-Booked_example =
    create_order-Booked hopeful one_hash moment "agent-1" payload "create-key-1" fresh_db 0 refl
      offer refl refl 1 booking refl refl refl

-- Another request has stored an order of the same reference since the key was looked up.
abbrev second : Moment
second = record moment { new_id = "order-2" }
