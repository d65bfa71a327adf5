-- ===== src/Booking/Concurrent.antt =====
-- Requests that run at once, as a schedule of the steps that the database runs one at a time: the
-- sessions of `issue_order` and the storing session of `create_order`. Between its sessions an
-- issue waits for the provider; such a flight keeps the locals of its coroutine.
pub mod Safety
pub mod Flying
pub mod Exclusive
pub mod Lapse
pub mod Sequential
pub mod Solvent
use ioka.Prelude.{ℕ, String, Option, none, some, List, [], ◌∷◌, ◌++◌}
use ioka.Prelude.Lists.{get_elem?, remove_at}
use ioka.Domain.Provider.{ProviderBooking, ProviderTicket, Outcome}
use ioka.Exceptions.{Result, ok, err}
use ioka.Models.{Db, Offer, Moment}
use ioka.Schemas.{OrderCreate}
use ioka.Booking.Create.{save_order}
use ioka.Booking.Issue.{Began, already, started, begin_issue}
use ioka.Booking.Settle.{finish_issue}

pub record Flight : Type 0 where
  pub agent_id : String
  pub order_id : String
  pub key : String
  pub booking_id : String

pub record System : Type 0 where
  pub db : Db
  pub flights : List Flight

pub data Event : Type 0 where
  -- a POST of an issue reaches its first session
  request : String → String → String → Event
  -- the provider answers the flight at a position
  answer : ℕ → ℕ → Outcome ProviderTicket → Event
  -- a POST of an order reaches its storing session
  store : Moment → String → OrderCreate → String → String → Offer → ProviderBooking → Event

unfoldable pub launch : String → String → String → Result Began × Db → List Flight → System
launch a j key (ok (started booking_id), db) flights = record {
  db = db;
  flights =
      flights ++ record { agent_id = a; order_id = j; key = key; booking_id = booking_id } ∷ [];
}
launch a j key (ok (already order agent), db) flights = record { db = db; flights = flights }
launch a j key (err e, db) flights = record { db = db; flights = flights }

unfoldable pub land : Option Flight → ℕ → ℕ → Outcome ProviderTicket → System → System
land none n duration_ms outcome s = s
land (some f) n duration_ms outcome s = record {
  db = (finish_issue f.agent_id f.order_id f.key duration_ms outcome s.db).1;
  flights = remove_at s.flights n;
}

unfoldable pub step : Event → System → System
unfolding launch land
step (request a j key) s = launch a j key (begin_issue a j key s.db) s.flights
step (answer n duration_ms outcome) s = land (get_elem? s.flights n) n duration_ms outcome s
step (store at a payload key payload_hash offer booking) s = record s {
  db = (save_order at a payload key payload_hash offer booking s.db).1;
}

unfoldable pub run : List Event → System → System
run [] s = s
run (e ∷ es) s = run es (step e s)
