-- ===== src/Schemas.antt =====
-- app/schemas.py: the request bodies that the services take, and their `model_dump(mode="json")`.
pub mod Validation
pub mod Responses
use ioka.Prelude.{ℕ, String}
use ioka.Json.{Fields, text, date, object, nil, field, number}
use ioka.Domain.Calendar.{Date, Datetime}

pub record LoginRequest : Type 0 where
  pub email : String
  pub password : String

pub record TokenResponse : Type 0 where
  pub access_token : String
  pub token_type : String
  pub expires_at : Datetime

pub record SearchRequest : Type 0 where
  pub origin : String
  pub destination : String
  pub departure_date : Date
  pub adults : ℕ
  pub cabin_class : String

pub record Passenger : Type 0 where
  pub first_name : String
  pub last_name : String
  pub birth_date : Date
  pub document_number : String
  pub document_expiry : Date
  pub citizenship : String

pub record OrderCreate : Type 0 where
  pub offer_id : String
  pub passenger : Passenger

unfoldable pub dump_passenger : Passenger → Fields
dump_passenger p = field "first_name" (text p.first_name) (
    field "last_name" (text p.last_name) (
      field "birth_date" (date p.birth_date) (
        field "document_number" (text p.document_number) (
          field "document_expiry" (date p.document_expiry)
            (field "citizenship" (text p.citizenship) nil)))))

unfoldable pub dump_order : OrderCreate → Fields
dump_order o =
    field "offer_id" (text o.offer_id) (field "passenger" (object (dump_passenger o.passenger)) nil)

unfoldable pub dump_search : SearchRequest → Fields
dump_search r = field "origin" (text r.origin) (
    field "destination" (text r.destination) (
      field "departure_date" (date r.departure_date)
        (field "adults" (number r.adults) (field "cabin_class" (text r.cabin_class) nil))))
