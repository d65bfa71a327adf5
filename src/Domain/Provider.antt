-- ===== src/Domain/Provider.antt =====
-- app/domain/provider.py: what the services hand to an airline provider and get back. The port
-- itself is a record of operations over a state of the provider's own.
use ioka.Prelude.{ℕ, String, Bool, true, false, List, ◌==◌, if◌then◌else◌}
use ioka.Prelude.Int.{ℤ}
use ioka.Domain.Calendar.{Date, Datetime}
use ioka.Json.{Fields}

pub record ProviderSearchRequest : Type 0 where
  pub origin : String
  pub destination : String
  pub departure_date : Date
  pub adults : ℕ
  pub cabin_class : String

-- Amounts of money are whole hundredths of the currency's unit (`Numeric(16, 2)`).
pub record ProviderOffer : Type 0 where
  pub provider_offer_id : String
  pub origin : String
  pub destination : String
  pub departure_at : Datetime
  pub arrival_at : Datetime
  pub carrier : String
  pub flight_number : String
  pub fare_family : String
  pub baggage : String
  pub total_amount : ℤ
  pub currency : String
  pub expires_at : Datetime
  pub raw_payload : Fields

pub record ProviderBooking : Type 0 where
  pub provider_booking_id : String
  pub booking_reference : String

pub record ProviderTicket : Type 0 where
  pub ticket_number : String
  pub issued_at : Datetime

-- How a call under `asyncio.wait_for` ends. A raise carries `str(exc)` and `type(exc).__name__`; a
-- `TimeoutError`, that of `wait_for` with no text or the provider's own, carries its text.
pub data Outcome (A : Type 0) : Type 0 where
  returned : A → Outcome A
  raised : String → String → Outcome A
  timed_out : String → Outcome A

module _ {A : Type 0} where
  abbrev pub is_failure : Outcome A → Bool
  is_failure (returned a) = false
  is_failure _ = true

  -- `isinstance(exc, TimeoutError)`
  abbrev pub is_timeout : Outcome A → Bool
  is_timeout (timed_out message) = true
  is_timeout _ = false

  -- `504 if isinstance(exc, TimeoutError) else 502`
  abbrev pub failure_code : Outcome A → ℕ
  failure_code (timed_out message) = 504
  failure_code _ = 502

  -- `str(exc)`
  abbrev pub failure_text : Outcome A → String
  failure_text (raised message class) = message
  failure_text (timed_out message) = message
  failure_text _ = ""

  -- `str(exc) or type(exc).__name__`
  abbrev pub failure_message : Outcome A → String
  failure_message (raised message class) = if message == "" then class else message
  failure_message (timed_out message) = if message == "" then "TimeoutError" else message
  failure_message _ = ""

pub record AirlineProvider (S : Type 0) : Type 0 where
  pub name : String
  pub search : ProviderSearchRequest → S → Outcome (List ProviderOffer) × S
  pub book : String → Fields → String → S → Outcome ProviderBooking × S
  pub issue : String → String → S → Outcome ProviderTicket × S
