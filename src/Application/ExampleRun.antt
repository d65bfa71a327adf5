-- ===== src/Application/ExampleRun.antt =====
-- A run of the application for its tests: an agent signs in, books an offer, has it issued, and
-- starts a search, which the mock provider answers.
use ioka.Prelude.{ℕ, zero, suc, ◌≡◌, refl, String, none, some, [], ◌∷◌}
use ioka.Prelude.Lists.{remove_at, get_elem?}
use ioka.Prelude.Rows.{scalar, modify}
use ioka.Bytes.{encode, split, rstrip}
use ioka.Security.Base64.{b64encode, urlsafe_b64encode, b64decode, urlsafe_b64decode}
use ioka.Security.Claims.{Claims}
use ioka.Security.Token.{payload_of, create_access_token, decode_access_token, JwtSettings}
use ioka.Domain.Calendar.{has_passed}
use ioka.Domain.Provider.{ProviderSearchRequest, returned}
use ioka.Exceptions.{ok}
use ioka.Models.{Moment}
use ioka.Schemas.{SearchRequest, TokenResponse}
use ioka.Dependencies.{get_current_agent}
use ioka.Routes.Login.{token_response}
use ioka.Routes.Login.Session.{bearer}
use ioka.MockProvider.{MockState, mock_offers, mock_provider}
use ioka.Audit.{add_status_audit, add_provider_audit}
use ioka.Search.Start.{World, start_found, add_search}
use ioka.Search.Process.{begin_search, finish_search}
use ioka.Booking.Create.{bookable_offer, finish_booking, save_order, add_booking}
use ioka.Booking.Issue.{begin_issue}
use ioka.Booking.Settle.{finish_issue, complete_issue}
use ioka.Booking.Concurrent.{request, answer, step}
use ioka.Cache.{JsonLibrary, answered, broken}
use ioka.Config.{default_settings}
use ioka.Application.{Libraries, app_state, Services}
use ioka.Application.Steps.{App, Booking, set_db, idle, with_search, issue_step, Step, Reach}
use ioka.Fixture.{fresh_db, agent, offer, payload, booking, ticket, moment, at_time, day}
use ioka.Fixture.Libraries.{methods, hashlib, jwt}

abbrev jwt_settings : JwtSettings
jwt_settings = record {
  jwt_secret = "local-development-secret-change-me-please";
  jwt_issuer = "ioka-flight-booking";
  jwt_audience = "ioka-agents";
  jwt_ttl_minutes = 60;
}

abbrev claims : Claims
claims = payload_of (jwt Claims.nil) jwt_settings "agent-1" "id" (at_time 0)

abbrev json : JsonLibrary
json = record { dumps = λ fields. "{}"; loads = λ body. broken }

abbrev pub digest : String → String
digest text = "00ff89abcdef01234567"

-- a Redis that forgets, and a queue that takes every message
abbrev libraries : Libraries (Unit {0}) (Unit {0}) MockState
libraries = record {
  redis = record { get = λ key r. (answered none, r); setex = λ key ttl value r. (answered tt, r) };
  json = json;
  broker = record { send = λ key body q. (answered tt, q); json = json };
  jwt = jwt claims;
  hashlib = hashlib;
  methods = methods;
  bind = λ other. none;
  request_hash = λ fields. "h1";
  provider = mock_provider digest;
  integrity_text = "duplicate key";
}

abbrev pub services : Services (Unit {0}) (Unit {0}) MockState
services = app_state default_settings libraries

abbrev pub world : World (Unit {0}) (Unit {0})
world = record { db = fresh_db; redis = tt; queue = tt; tasks = [] }

abbrev given : TokenResponse
given = token_response (create_access_token (jwt claims) jwt_settings "agent-1" "id" (at_time 0))

pub is_current :
    get_current_agent services.bind methods
      (jwt claims)
      jwt_settings
      (bearer given)
      (at_time 1)
      fresh_db
    ≡ ok agent
unfolding get_current_agent decode_access_token scalar split encode b64encode urlsafe_b64encode
    rstrip b64decode urlsafe_b64decode create_access_token
is_current = refl

abbrev waiting : Booking
waiting = record { agent_id = "agent-1"; payload = payload; key = "create-key-1"; offer = offer }

abbrev pub State : Type 0
State = App (Unit {0}) (Unit {0})

abbrev signed : State
signed = record (idle world) { agent_ids = "agent-1" ∷ [] }

abbrev booking_state : State
booking_state = record signed { bookings = waiting ∷ [] }

abbrev booked_state : State
booked_state =
    set_db
      (finish_booking moment "agent-1" payload "create-key-1" "h1" offer (returned booking)
        fresh_db).1
      (record booking_state { bookings = [] })

abbrev issuing_state : State
issuing_state = issue_step (request "agent-1" "order-1" "issue-key-1") booked_state

abbrev issued_state : State
issued_state = issue_step (answer 0 5 (returned ticket)) issuing_state

abbrev search_request : SearchRequest
search_request = record {
  origin = "TAS";
  destination = "DXB";
  departure_date = day;
  adults = 2;
  cabin_class = "ECONOMY";
}

abbrev at_search : Moment
at_search = record moment { new_id = "search-2" }

abbrev searching_state : State
searching_state = record issued_state {
  world =
      (start_found services.search_cache services.broker services.search_settings
        services.request_hash at_search "agent-1" search_request none issued_state.world).1;
}

abbrev begun_state : State
begun_state =
    with_search "search-2" (begin_search "search-2" searching_state.world.db) searching_state

abbrev asked : ProviderSearchRequest
asked = record {
  origin = "TAS";
  destination = "DXB";
  departure_date = day;
  adults = 2;
  cabin_class = "ECONOMY";
}

abbrev uuids : ℕ → String
uuids zero = "offer-a"
uuids (suc zero) = "offer-b"
uuids other = "offer-c"

abbrev pub final : State
final =
    set_db
      (finish_search "duplicate key" at_search uuids "mock-air" "search-2" asked
        (returned (mock_offers digest (at_time 0) asked)) begun_state.world.db)
      (record begun_state { searching = remove_at begun_state.searching 0 })

reached_booking : Reach services (idle world) booked_state
unfolding bookable_offer scalar has_passed
reached_booking =
    Reach.next
      (Reach.next
        (Reach.next Reach.here (Step.signed_in (bearer given) (at_time 1) agent is_current))
        (Step.booking_begun 0 "agent-1" moment payload "create-key-1" offer refl refl))
      (Step.booking_ended 0 waiting moment "h1" (returned booking) refl)

reached_search : Reach services (idle world) begun_state
reached_search =
    Reach.next
      (Reach.next
        (Reach.next
          (Reach.next reached_booking (Step.issue_begun 0 "agent-1" "order-1" "issue-key-1" refl))
          (Step.issue_ended 0 5 (returned ticket)))
        (Step.search_started 0 "agent-1" at_search search_request none tt refl))
      (Step.search_begun "search-2")

pub waits :
    get_elem? begun_state.searching 0 ≡ some (record { search_id = "search-2"; request = asked })
unfolding begin_search scalar start_found step begin_issue finish_booking save_order add_booking
    add_status_audit add_provider_audit finish_issue complete_issue modify add_search
waits = refl

unfoldable pub reached : Reach services (idle world) final
unfolding mock_offers reached_search reached_booking
reached = Reach.next reached_search (
    Step.search_ended 0 (record { search_id = "search-2"; request = asked }) at_search uuids
      (returned (mock_offers digest (at_time 0) asked)) waits
      (at_time 0, record { bookings = []; tickets = [] }, refl))
