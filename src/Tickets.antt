-- ===== src/Tickets.antt =====
-- app/application/tickets.py: the guard and the table of `build_ticket_pdf`. Its layout is
-- the child's, and writing it as a PDF is the work of a library. A cell keeps the value where Python writes the text of a number or a date.
pub mod Document
use ioka.Prelude.{String, ◌||◌, Bool, not, truthy, Option, none, some, List, [], ◌∷◌}
use ioka.Prelude.Int.{ℤ}
use ioka.Json.{get_text}
use ioka.Domain.Calendar.{Datetime}
use ioka.Domain.Enums.{is_issued}
use ioka.Exceptions.{Result, ok, error, conflict, key_error, ◌>>=◌, ◌>>◌, raise_if, or_raise}
use ioka.Models.{Order, Offer}

pub data Cell : Type 0 where
  -- texts that stand one after another, with what is between them
  texts : List String → Cell
  isoformat : Datetime → Cell
  money : ℤ → String → Cell

abbrev pub unavailable : Order → Bool
unavailable order = not (is_issued order.status) || not (truthy order.ticket_number)

abbrev pub or_empty : Option String → String
or_empty none = ""
or_empty (some s) = s

-- The rows of the table, given `passenger['first_name']` and `passenger['last_name']`.
unfoldable pub ticket_rows : Order → Offer → String → String → List (String × Cell)
ticket_rows order offer first_name last_name =
    ("Booking reference", texts (order.booking_reference ∷ []))
    ∷ ("Ticket number", texts (or_empty order.ticket_number ∷ []))
    ∷ ("Passenger", texts (first_name ∷ " " ∷ last_name ∷ []))
    ∷ ("Route", texts (offer.origin ∷ "  ->  " ∷ offer.destination ∷ []))
    ∷ ("Flight", texts (offer.carrier ∷ " " ∷ offer.flight_number ∷ []))
    ∷ ("Departure", isoformat offer.departure_at)
    ∷ ("Fare", texts (offer.fare_family ∷ "; " ∷ offer.baggage ∷ []))
    ∷ ("Total", money order.amount order.currency)
    ∷ []

unfoldable pub build_ticket : Order → Offer → Result (List (String × Cell))
unfolding ticket_rows
build_ticket order offer = do
  raise_if (unavailable order) (error conflict "Ticket is available only for an issued order")
  first_name ← or_raise (get_text "first_name" order.passenger) (key_error "first_name")
  last_name ← or_raise (get_text "last_name" order.passenger) (key_error "last_name")
  ok (ticket_rows order offer first_name last_name)
