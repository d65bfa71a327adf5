-- ===== src/Application/Steps.antt =====
-- The application as it runs: every session that a request, a task, or the worker runs on the
-- database, as a step relation. Between two sessions a coroutine waits, with what it has read; a
-- request waits with the agent that `get_current_agent` gave it.
use ioka.Prelude.{ℕ, ◌≡◌, String, false, Option, none, some, List, [], ◌∷◌, ◌++◌}
use ioka.Prelude.Lists.{any, get_elem?, remove_at}
use ioka.Bytes.{Bytes}
use ioka.Exceptions.{ok}
use ioka.Domain.Calendar.{Datetime}
use ioka.Domain.Provider.{
  AirlineProvider, ProviderSearchRequest, ProviderOffer, ProviderBooking, ProviderTicket, Outcome,
  returned,
}
use ioka.Models.{Db, Agent, FlightSearch, Offer, Moment, agent_by_id}
use ioka.Schemas.{SearchRequest, OrderCreate}
use ioka.Dependencies.{HttpAuthorizationCredentials, get_current_agent}
use ioka.Search.Start.{World, start_found}
use ioka.Search.Process.{begin_search, finish_search}
use ioka.Booking.Create.{bookable_offer, finish_booking}
use ioka.Booking.Concurrent.{Flight, Event, request, answer, step}
use ioka.Application.{Services, lifespan}

-- A run of `process` that waits for the provider.
pub record Searching : Type 0 where
  pub search_id : String
  pub request : ProviderSearchRequest

-- A `create_order` that waits for the provider.
pub record Booking : Type 0 where
  pub agent_id : String
  pub payload : OrderCreate
  pub key : String
  pub offer : Offer

pub record App (R Q : Type 0) : Type 0 where
  pub world : World R Q
  -- the agents of the requests that passed `get_current_agent`
  pub agent_ids : List String
  pub searching : List Searching
  pub bookings : List Booking
  pub flights : List Flight

module _ {R Q : Type 0} where
  abbrev pub set_db : Db → App R Q → App R Q
  set_db db s = record s { world = record s.world { db = db } }

  -- the application before its first request
  abbrev pub idle : World R Q → App R Q
  idle world = record { world = world; agent_ids = []; searching = []; bookings = []; flights = [] }

  abbrev pub with_search : String → Option ProviderSearchRequest × Db → App R Q → App R Q
  with_search search_id (none, db) s = set_db db s
  with_search search_id (some r, db) s = record (set_db db s) {
    searching = s.searching ++ record { search_id = search_id; request = r } ∷ [];
  }

  -- a step of the sessions of `issue_order`
  abbrev pub issue_step : Event → App R Q → App R Q
  issue_step e s =
      let system = step e (record { db = s.world.db; flights = s.flights }) in
      record (set_db system.db s) { flights = system.flights }

-- Offers are what the provider answers, at some time and in some state of its own; it may raise, or
-- run into the time limit of `asyncio.wait_for`, at any time.
abbrev pub Answers :
    {S : Type 0}
    → (Datetime → AirlineProvider S)
    → ProviderSearchRequest
    → Outcome (List ProviderOffer)
    → Type 0
Answers {S} provider asked (returned items) =
    (now : Datetime) × (state : S) × (((provider now).search asked state).0 ≡ returned items)
Answers provider asked failure = Unit {0}

module _ {R Q S : Type 0} (services : Services R Q S) where
  -- One session, or the check of a request's token. The premises say what the coroutine has read
  -- before; the times, the uuids, the salts and what the provider makes of a booking or an issue are any.
  pub data Step : App R Q → App R Q → Type 0 where
    -- a process of the API starts on the same database; uuid4 draws an identifier of no agent
    launched :
        {s : App R Q} (new_id : String) (salt : Bytes) (db : Db)
        → any (agent_by_id new_id) s.world.db.agents ≡ false
        → lifespan services new_id salt (some s.world.db) ≡ some db
        → Step s (set_db db s)
    signed_in :
        {s : App R Q} (credentials : Option HttpAuthorizationCredentials) (now : Datetime)
        (agent : Agent)
        → get_current_agent services.bind services.methods services.jwt services.jwt_settings
            credentials now s.world.db
          ≡ ok agent
        → Step s (record s { agent_ids = s.agent_ids ++ agent.id ∷ [] })
    -- the storing session of `start`; what Redis and the session before it answered is any
    search_started :
        {s : App R Q} (n : ℕ) (agent_id : String) (at : Moment) (payload : SearchRequest)
        (cached : Option FlightSearch) (redis : R)
        → get_elem? s.agent_ids n ≡ some agent_id
        → Step s (record s {
          world =
              (start_found services.search_cache services.broker services.search_settings
                services.request_hash at agent_id payload cached
                (record s.world { redis = redis })).1;
        })
    -- for the search of a task, or of a message of the queue
    search_begun :
        {s : App R Q} (search_id : String)
        → Step s (with_search search_id (begin_search search_id s.world.db) s)
    search_ended :
        {s : App R Q} (n : ℕ) (run : Searching) (at : Moment) (new_id : ℕ → String)
        (outcome : Outcome (List ProviderOffer))
        → get_elem? s.searching n ≡ some run
        → Answers services.provider run.request outcome
        → Step s (
            set_db
              (finish_search services.integrity_text at new_id
                (services.provider at.now).name
                run.search_id
                run.request
                outcome
                s.world.db)
              (record s { searching = remove_at s.searching n }))
    -- the session of `create_order` that reads the offer, whatever its lookup of the key found
    booking_begun :
        {s : App R Q} (n : ℕ) (agent_id : String) (at : Moment) (payload : OrderCreate)
        (key : String) (offer : Offer)
        → get_elem? s.agent_ids n ≡ some agent_id
        → bookable_offer at agent_id payload.offer_id s.world.db ≡ ok offer
        → Step s (record s {
          bookings =
              s.bookings
              ++ record { agent_id = agent_id; payload = payload; key = key; offer = offer } ∷ [];
        })
    booking_ended :
        {s : App R Q} (n : ℕ) (b : Booking) (at : Moment) (payload_hash : String)
        (outcome : Outcome ProviderBooking)
        → get_elem? s.bookings n ≡ some b
        → Step s (
            set_db
              (finish_booking at b.agent_id b.payload b.key payload_hash b.offer outcome
                s.world.db).1
              (record s { bookings = remove_at s.bookings n }))
    issue_begun :
        {s : App R Q} (n : ℕ) (agent_id order_id key : String)
        → get_elem? s.agent_ids n ≡ some agent_id
        → Step s (issue_step (request agent_id order_id key) s)
    issue_ended :
        {s : App R Q} (n duration_ms : ℕ) (outcome : Outcome ProviderTicket)
        → Step s (issue_step (answer n duration_ms outcome) s)

  -- Steps in sequence.
  pub data Reach (s : App R Q) : App R Q → Type 0 where
    here : Reach s s
    next : {t u : App R Q} → Reach s t → Step t u → Reach s u
