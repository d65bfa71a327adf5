-- ===== src/Routes/Handlers.antt =====
-- The handlers of app/api/routes.py that hand a request on to a service, with the dependency on the
-- agent (`CurrentAgent`) and on the header `Idempotency-Key`.
pub mod Started
pub mod Orders
use Prim.Native.String as Text
use ioka.Prelude.{ℕ, String, Bool, Option, none, some, List, leb, if◌then◌else◌}
use ioka.Json.{Fields}
use ioka.Bytes.{TextMethods}
use ioka.Domain.Calendar.{Date}
use ioka.Domain.Enums.{PaymentStatus, search_text, held, captured, released}
use ioka.Domain.Provider.{AirlineProvider}
use ioka.Exceptions.{Exception, Result, ok, err, ◌>>=◌}
use ioka.Models.{Db, Agent, FlightSearch, Offer, Order, Moment}
use ioka.Schemas.{SearchRequest, OrderCreate}
use ioka.Schemas.Validation.{idempotency_key_field, SearchBody, validate_search, validate_order}
use ioka.Schemas.Responses.{
  AgentProfile, SearchAccepted, OfferDetail, OrderOut, IssueResult, HealthStatus, healthy, ready,
  Timestamps, agent_profile, offer_out, order_out,
}
use ioka.Locations.{Location, search_locations}
use ioka.Cache.{SearchCache}
use ioka.Broker.{Broker}
use ioka.Search.Start.{Settings, World, start}
use ioka.Booking.Create.{create_order, get_order}
use ioka.Booking.Settle.{issue_order, Issued}

-- What a request is answered: the handler's result, an exception, or status 422 for a request that
-- does not fit the declared parameters.
pub data Answer (A : Type 0) : Type 0 where
  answered : A → Answer A
  failed : Exception → Answer A
  unprocessable : Answer A

abbrev pub answer_of : {A B : Type 0} → (A → B) → Result A → Answer B
answer_of f (ok a) = answered (f a)
answer_of f (err e) = failed e

-- A handler that reads, for the agent that the dependency found.
abbrev pub reading : {A : Type 0} → Result Agent → (Agent → Answer A) → Answer A
reading (err e) handler = failed e
reading (ok agent) handler = handler agent

-- A handler that works on a state `W`.
abbrev pub working : {A W : Type 0} → Result Agent → (Agent → W → Answer A × W) → W → Answer A × W
working (err e) handler w = (failed e, w)
working (ok agent) handler w = handler agent w

-- The dependency on the agent is resolved before the other parameters are validated.
abbrev pub with_valid : {V A W : Type 0} → Option V → (V → W → Answer A × W) → W → Answer A × W
with_valid none handler w = (unprocessable, w)
with_valid (some valid) handler w = handler valid w

abbrev pub payment_text : PaymentStatus → String
payment_text held = "HELD"
payment_text captured = "CAPTURED"
payment_text released = "RELEASED"

unfoldable pub profile : Result Agent → Answer AgentProfile
profile current = reading current λ agent. answered (agent_profile agent)

-- `Query(alias="q", max_length=80)`
unfoldable pub get_locations : TextMethods → String → Result Agent → Answer (List Location)
get_locations methods query current = reading current λ agent.
    if leb (Text.count query) 80 then answered (search_locations methods query) else unprocessable

unfoldable pub search_accepted : FlightSearch → SearchAccepted
search_accepted search = record {
  search_id = search.id;
  status = search_text search.status;
  poll_url = Text.◌++◌ "/travel/avia/offers/search/" search.id;
  expires_at = search.expires_at;
}

abbrev pub answer_with : {A B W : Type 0} → (A → B) → Result A × W → Answer B × W
answer_with f (result, w) = (answer_of f result, w)

module _ {R Q : Type 0} (cache : Option (SearchCache R)) (broker : Option (Broker Q))
    (settings : Settings) (request_hash : Fields → String) (methods : TextMethods) where
  unfoldable pub start_offer_search :
      Moment → Date → SearchBody → Result Agent → World R Q → Answer SearchAccepted × World R Q
  unfolding search_accepted
  start_offer_search at today body current = working current λ agent.
      with_valid (validate_search methods today body) λ payload w.
        answer_with search_accepted (start cache broker settings request_hash at agent.id payload w)

unfoldable pub offer_details_response : Offer → OfferDetail
offer_details_response offer = record {
  offer = offer_out offer;
  provider = offer.provider;
  fare_rules = offer.raw_payload;
}

-- The two values of a request that has a body and the header.
abbrev pub both : {A B : Type 0} → Option A → Option B → Option (A × B)
both (some a) (some b) = some (a, b)
both _ _ = none

-- The state of the booking service: the database, and what the provider keeps.
abbrev pub regroup : {A B C : Type 0} → A × B × C → A × (B × C)
regroup (a, b, c) = (a, (b, c))

module _ {S : Type 0} (provider : AirlineProvider S) (request_hash : Fields → String)
    (methods : TextMethods) (times : Timestamps) where
  unfoldable pub create_order_handler :
      Moment → OrderCreate → String → Result Agent → Db × S → Answer OrderOut × (Db × S)
  create_order_handler at body idempotency_key current = working current λ agent.
      with_valid (both (validate_order methods body) (idempotency_key_field idempotency_key))
        λ (payload, key) (db, s).
          answer_with (order_out times)
            (regroup (create_order provider request_hash at agent.id payload key db s))

unfoldable pub issue_result : Timestamps → Issued → IssueResult
issue_result times (order, agent, payment_status) = record {
  order = order_out times order;
  balance = agent.balance;
  payment_status = payment_text payment_status;
}

module _ {S : Type 0} (provider : AirlineProvider S) (times : Timestamps) where
  unfoldable pub issue_order_handler :
      ℕ → String → String → Result Agent → Db × S → Answer IssueResult × (Db × S)
  issue_order_handler duration_ms order_id idempotency_key current = working current λ agent.
      with_valid (idempotency_key_field idempotency_key) λ key (db, s).
        answer_with (issue_result times)
          (regroup (issue_order provider agent.id order_id key duration_ms db s))

unfoldable pub get_order_handler : Timestamps → String → Db → Result Agent → Answer OrderOut
get_order_handler times order_id db current =
    reading current λ agent. answer_of (order_out times) (get_order agent.id order_id db)

unfoldable pub live : HealthStatus
live = healthy

-- `session.execute(select(1))` reaches the database or raises.
unfoldable pub ready_handler : Result (Unit {0}) → Answer HealthStatus
ready_handler executed = answer_of (λ one. ready) executed
