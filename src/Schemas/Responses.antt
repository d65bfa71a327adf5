-- ===== src/Schemas/Responses.antt =====
-- The response bodies of app/schemas.py. The times that the server fills in are not columns of a
-- row of the model, and are given beside it.
use ioka.Prelude.{String, Option}
use ioka.Prelude.Int.{ℤ}
use ioka.Json.{Fields}
use ioka.Domain.Calendar.{Datetime}
use ioka.Domain.Enums.{order_text}
use ioka.Models.{Agent, Offer, Order}

pub record AgentProfile : Type 0 where
  pub id : String
  pub email : String
  pub balance : ℤ
  pub currency : String

pub record SearchAccepted : Type 0 where
  pub search_id : String
  pub status : String
  pub poll_url : String
  pub expires_at : Datetime

pub record OfferOut : Type 0 where
  pub id : String
  pub origin : String
  pub destination : String
  pub departure_at : Datetime
  pub arrival_at : Datetime
  pub carrier : String
  pub flight_number : String
  pub fare_family : String
  pub baggage : String
  pub total_amount : ℤ
  pub currency : String
  pub expires_at : Datetime

pub record OfferDetail : Type 0 where
  pub offer : OfferOut
  pub provider : String
  pub fare_rules : Fields

-- `created_at` and `updated_at` of a row
pub record Timestamps : Type 0 where
  pub created_at : Datetime
  pub updated_at : Datetime

pub record OrderOut : Type 0 where
  pub id : String
  pub status : String
  pub booking_reference : String
  pub ticket_number : Option String
  pub amount : ℤ
  pub currency : String
  pub passenger : Fields
  pub issued_at : Option Datetime
  pub times : Timestamps

pub record IssueResult : Type 0 where
  pub order : OrderOut
  pub balance : ℤ
  pub payment_status : String

pub data HealthStatus : Type 0 where
  healthy ready : HealthStatus

-- The rows' attributes under the fields' names (`from_attributes`).
unfoldable pub agent_profile : Agent → AgentProfile
agent_profile agent = record {
  id = agent.id;
  email = agent.email;
  balance = agent.balance;
  currency = agent.currency;
}

unfoldable pub offer_out : Offer → OfferOut
offer_out offer = record {
  id = offer.id;
  origin = offer.origin;
  destination = offer.destination;
  departure_at = offer.departure_at;
  arrival_at = offer.arrival_at;
  carrier = offer.carrier;
  flight_number = offer.flight_number;
  fare_family = offer.fare_family;
  baggage = offer.baggage;
  total_amount = offer.total_amount;
  currency = offer.currency;
  expires_at = offer.expires_at;
}

unfoldable pub order_out : Timestamps → Order → OrderOut
order_out times order = record {
  id = order.id;
  status = order_text order.status;
  booking_reference = order.booking_reference;
  ticket_number = order.ticket_number;
  amount = order.amount;
  currency = order.currency;
  passenger = order.passenger;
  issued_at = order.issued_at;
  times = times;
}
