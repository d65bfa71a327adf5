-- ===== src/Fixture.antt =====
-- Data for the tests and examples: an agent with a booked order, as in tests/conftest.py.
pub mod Libraries
use ioka.Prelude.{ℕ, true, none, some, [], ◌∷◌, suc}
use ioka.Prelude.Int.{pos}
use ioka.Json.{nil}
use ioka.Domain.Calendar.{Date, Datetime}
use ioka.Domain.Enums.{booked, completed}
use ioka.Domain.Provider.{
  AirlineProvider, ProviderBooking, ProviderTicket, Outcome, returned, raised,
}
use ioka.Models.{Db, Agent, FlightSearch, Offer, Order, Moment}
use ioka.Schemas.{OrderCreate, Passenger, dump_passenger}

abbrev pub at_time : ℕ → Datetime
at_time n = record { micros = n; tzinfo = true }

abbrev pub day : Date
day = record { year = 2026; month = 10; day = 20 }

abbrev pub agent : Agent
agent = record {
  id = "agent-1";
  email = "test@example.com";
  password_hash = "";
  balance = pos 500000000;
  currency = "UZS";
  is_active = true;
}

abbrev pub search : FlightSearch
search = record {
  id = "search-1";
  agent_id = "agent-1";
  origin = "TAS";
  destination = "IST";
  departure_date = day;
  adults = 1;
  cabin_class = "ECONOMY";
  status = completed;
  error_code = none;
  error_message = none;
  expires_at = at_time 900000000;
  completed_at = some (at_time 0);
}

abbrev pub offer : Offer
offer = record {
  id = "offer-row-1";
  search_id = "search-1";
  provider = "mock-air";
  provider_offer_id = "offer-1";
  origin = "TAS";
  destination = "IST";
  departure_at = at_time 5000000000;
  arrival_at = at_time 6000000000;
  carrier = "Ioka Airways";
  flight_number = "IO210";
  fare_family = "FLEX";
  baggage = "Checked baggage 23 kg";
  total_amount = pos 100000000;
  currency = "UZS";
  expires_at = at_time 900000000;
  raw_payload = nil;
}

abbrev pub passenger : Passenger
passenger = record {
  first_name = "ALI";
  last_name = "KARIMOV";
  birth_date = day;
  document_number = "AA1234567";
  document_expiry = day;
  citizenship = "UZ";
}

abbrev pub payload : OrderCreate
payload = record { offer_id = "offer-row-1"; passenger = passenger }

abbrev pub order : Order
order = record {
  id = "order-1";
  agent_id = "agent-1";
  offer_id = "offer-row-1";
  status = booked;
  passenger = dump_passenger passenger;
  amount = pos 100000000;
  currency = "UZS";
  provider_booking_id = "BKG-1";
  booking_reference = "REF001";
  issue_idempotency_key = none;
  ticket_number = none;
  issued_at = none;
}

-- an agent with an offer, and no order yet
abbrev pub fresh_db : Db
fresh_db = record {
  agents = agent ∷ [];
  searches = search ∷ [];
  offers = offer ∷ [];
  orders = [];
  transactions = [];
  idempotency_records = [];
  audit_logs = [];
}

-- the same with one booked order
abbrev pub booked_db : Db
booked_db = record fresh_db { orders = order ∷ [] }

abbrev pub moment : Moment
moment = record { now = at_time 1000; duration_ms = 5; new_id = "order-1" }

abbrev pub booking : ProviderBooking
booking = record { provider_booking_id = "BKG-1"; booking_reference = "REF001" }

abbrev pub ticket : ProviderTicket
ticket = record { ticket_number = "250-0000000001"; issued_at = at_time 2000 }

-- A provider that answers every booking and every issue the same way, and counts its calls.
abbrev pub constant_provider : Outcome ProviderBooking → Outcome ProviderTicket → AirlineProvider ℕ
constant_provider book issue = record {
  name = "mock-air";
  search = λ request s. (returned [], suc s);
  book = λ offer_id passenger key s. (book, suc s);
  issue = λ booking_id key s. (issue, suc s);
}

abbrev pub unavailable : {A : Type 0} → Outcome A
unavailable = raised "provider unavailable" "RuntimeError"
