-- ===== src/Routes.antt =====
-- app/api/routes.py: what the handlers make of the services' answers, for the agent that
-- `CurrentAgent` has found.
pub mod Answers
pub mod Handlers
pub mod Progress
pub mod Login
mod SearchTests
mod Tests
use ioka.Prelude.{ℕ, String, Bool, Option, none, some, List, ◌==◌, not, truthy, if◌then◌else◌}
use ioka.Prelude.Rows.{scalar}
use ioka.Domain.Enums.{SearchStatus}
use ioka.Exceptions.{Result, ok, err, error, not_found, key_error, ◌>>=◌, or_raise}
use ioka.Models.{Db, FlightSearch, Offer, Order}
use ioka.Booking.Create.{offered_to, get_order}
use ioka.Search.Start.{get}
use ioka.Tickets.{Cell, build_ticket}

pub record SearchResult : Type 0 where
  pub search_id : String
  pub status : SearchStatus
  pub offers : List Offer
  pub error : Option (String × String)

-- `search.error_message or "Search failed"`
abbrev pub message_or_default : Option String → String
message_or_default none = "Search failed"
message_or_default (some message) = if message == "" then "Search failed" else message

-- `if search.error_code: ...`
abbrev pub error_of : Option String → Option String → Option (String × String)
error_of none message = none
error_of (some code) message = if code == "" then none else some (code, message_or_default message)

unfoldable pub search_result : FlightSearch × List Offer → SearchResult
search_result (found, offers) = record {
  search_id = found.id;
  status = found.status;
  offers = offers;
  error = error_of found.error_code found.error_message;
}

unfoldable pub poll_offer_search : String → String → Db → Result SearchResult
unfolding search_result
poll_offer_search search_id agent_id db = do
  found ← get search_id agent_id db
  ok (search_result found)

unfoldable pub offer_details : String → String → Db → Result Offer
offer_details offer_id agent_id db =
    or_raise (scalar (offered_to agent_id offer_id db) db.offers)
      (error not_found "Offer not found")

-- `order.offer`, which the foreign key keeps there
abbrev pub offer_by_id : String → Offer → Bool
offer_by_id k o = o.id == k

unfoldable pub get_ticket : String → String → Db → Result (List (String × Cell))
get_ticket order_id agent_id db = do
  order ← get_order agent_id order_id db
  offer ← or_raise (scalar (offer_by_id order.offer_id) db.offers) (key_error "offer")
  build_ticket order offer
