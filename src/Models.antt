-- ===== src/Models.antt =====
-- app/infrastructure/models.py: the rows of the tables, and the database as its tables. Left out
-- are the columns that no code reads or writes by name: the surrogate keys of balance transactions,
-- idempotency records and audit rows, and the creation and update times that the server fills in.
-- Amounts of money are whole hundredths (`Numeric(16, 2)`); a reset to a column's width is the
-- database's.
use ioka.Prelude.{ℕ, String, Bool, Option, List, ◌==◌, ◌&&◌}
use ioka.Prelude.Int.{ℤ}
use ioka.Json.{Fields}
use ioka.Domain.Calendar.{Date, Datetime}
use ioka.Domain.Enums.{SearchStatus, OrderStatus, PaymentStatus, AuditKind}

pub record Agent : Type 0 where
  pub id : String
  pub email : String
  pub password_hash : String
  pub balance : ℤ
  pub currency : String
  pub is_active : Bool

pub record FlightSearch : Type 0 where
  pub id : String
  pub agent_id : String
  pub origin : String
  pub destination : String
  pub departure_date : Date
  pub adults : ℕ
  pub cabin_class : String
  pub status : SearchStatus
  pub error_code : Option String
  pub error_message : Option String
  pub expires_at : Datetime
  pub completed_at : Option Datetime

pub record Offer : Type 0 where
  pub id : String
  pub search_id : String
  pub provider : String
  pub provider_offer_id : String
  pub origin : String
  pub destination : String
  pub departure_at : Datetime
  pub arrival_at : Datetime
  pub carrier : String
  pub flight_number : String
  pub fare_family : String
  pub baggage : String
  pub total_amount : ℤ
  pub currency : String
  pub expires_at : Datetime
  pub raw_payload : Fields

pub record Order : Type 0 where
  pub id : String
  pub agent_id : String
  pub offer_id : String
  pub status : OrderStatus
  pub passenger : Fields
  pub amount : ℤ
  pub currency : String
  pub provider_booking_id : String
  pub booking_reference : String
  pub issue_idempotency_key : Option String
  pub ticket_number : Option String
  pub issued_at : Option Datetime

pub record BalanceTransaction : Type 0 where
  pub agent_id : String
  pub order_id : String
  pub idempotency_key : String
  pub amount : ℤ
  pub currency : String
  pub status : PaymentStatus

pub record IdempotencyRecord : Type 0 where
  pub agent_id : String
  pub scope : String
  pub key : String
  pub request_hash : String
  pub resource_type : String
  pub resource_id : String

pub record AuditLog : Type 0 where
  pub kind : AuditKind
  pub action : String
  pub entity_type : String
  pub entity_id : String
  pub request_payload : Option Fields
  pub response_payload : Option Fields
  pub status_code : Option ℕ
  pub duration_ms : Option ℕ
  pub error_message : Option String

pub record Db : Type 0 where
  pub agents : List Agent
  pub searches : List FlightSearch
  pub offers : List Offer
  pub orders : List Order
  pub transactions : List BalanceTransaction
  pub idempotency_records : List IdempotencyRecord
  pub audit_logs : List AuditLog

-- What one call takes from its surroundings: `utcnow()`, the milliseconds that `perf_counter`
-- measures, and the `uuid4` that `new_id` draws.
pub record Moment : Type 0 where
  pub now : Datetime
  pub duration_ms : ℕ
  pub new_id : String

-- The conditions of the services' queries.
abbrev pub agent_by_id : String → Agent → Bool
agent_by_id k a = a.id == k

-- `Agent.email == email`
abbrev pub agent_by_email : String → Agent → Bool
agent_by_email k a = a.email == k

abbrev pub search_by_id : String → FlightSearch → Bool
search_by_id k s = s.id == k

abbrev pub order_by_id : String → Order → Bool
order_by_id k o = o.id == k

-- `Order.id == order_id, Order.agent_id == agent_id`
abbrev pub owned_order : String → String → Order → Bool
owned_order agent_id order_id o = o.id == order_id && o.agent_id == agent_id

-- `BalanceTransaction.order_id == order_id`
abbrev pub for_order : String → BalanceTransaction → Bool
for_order order_id t = t.order_id == order_id
