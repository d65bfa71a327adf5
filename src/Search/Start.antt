-- ===== src/Search/Start.antt =====
-- `SearchService.start` and `get`: a search that the cache knows and that has not expired is
-- answered again; another one is stored, cached, and dispatched to a task or to the queue.
pub mod Reuse
pub mod Created
use ioka.Prelude.{
  ℕ, String, Bool, true, not, Option, none, some, List, [], ◌∷◌, ◌++◌, ◌==◌, ◌&&◌, if◌then◌else◌,
}
use ioka.Prelude.Lists.{any}
use ioka.Prelude.Rows.{scalar, select}
use ioka.Json.{Fields, text, nil, field, search_message, get_text}
use ioka.Domain.Calendar.{Datetime, add_seconds, has_passed}
use ioka.Domain.Enums.{pending, search_text}
use ioka.Exceptions.{
  Result, ok, err, error, integrity_error, runtime_error, connection_error, not_found,
}
use ioka.Models.{Db, FlightSearch, Offer, Moment, search_by_id}
use ioka.Schemas.{SearchRequest, dump_search}
use ioka.Audit.{add_status_audit}
use ioka.Cache.{SearchCache, cache_get, cache_set, Reply, answered, broken}
use ioka.Broker.{Broker, publish}

pub data DispatchMode : Type 0 where
  inline rabbitmq : DispatchMode

-- The settings that the search service reads.
pub record Settings : Type 0 where
  pub search_dispatch_mode : DispatchMode
  pub search_ttl_seconds : ℕ

-- What a call of `start` may change: the database, the cache's server, the queue, and the searches
-- for which `asyncio.create_task` has a task.
pub record World (R Q : Type 0) : Type 0 where
  pub db : Db
  pub redis : R
  pub queue : Q
  pub tasks : List String

-- `existing and ensure_aware(existing.expires_at) > utcnow()`
abbrev pub unexpired : Datetime → Option FlightSearch → Option FlightSearch
unexpired now none = none
unexpired now (some existing) = if has_passed existing.expires_at now then none else some existing

-- `session.get(FlightSearch, cached.get("search_id"))`
abbrev pub get_search : Option String → Db → Option FlightSearch
get_search none db = none
get_search (some search_id) db = scalar (search_by_id search_id) db.searches

abbrev pub cached_search : Datetime → Option Fields → Db → Option FlightSearch
cached_search now none db = none
cached_search now (some cached) db = unexpired now (get_search (get_text "search_id" cached) db)

abbrev pub new_search : Moment → ℕ → String → SearchRequest → FlightSearch
new_search at ttl agent_id payload = record {
  id = at.new_id;
  agent_id = agent_id;
  origin = payload.origin;
  destination = payload.destination;
  departure_date = payload.departure_date;
  adults = payload.adults;
  cabin_class = payload.cabin_class;
  status = pending;
  error_code = none;
  error_message = none;
  expires_at = add_seconds ttl at.now;
  completed_at = none;
}

unfoldable pub add_search : FlightSearch → Db → Db
add_search search db =
    add_status_audit "flight_search" search.id "search_created" none (search_text pending)
      (record db { searches = db.searches ++ search ∷ [] })

-- `request_hash({"agent_id": agent_id, **payload.model_dump(mode="json")})`
abbrev pub search_key : (Fields → String) → String → SearchRequest → String
search_key request_hash agent_id payload =
    request_hash (field "agent_id" (text agent_id) (dump_search payload))

module _ {R : Type 0} (cache : Option (SearchCache R)) where
  -- `if self.cache: cached = await self.cache.get(cache_key)`
  unfoldable pub read_cache : String → R → Option Fields × R
  read_cache key r = elim cache [ none ↦ (none, r) | some c ↦ cache_get c key r ]

  unfoldable pub write_cache : String → Fields → R → R
  write_cache key value r = elim cache [ none ↦ r | some c ↦ cache_set c key value r ]

module _ {R Q : Type 0} where
  -- `publish` ends with the message in the queue, or raises what the broker's library raises
  abbrev pub published :
      FlightSearch → World R Q → Reply (Unit {0}) × Q → Result FlightSearch × World R Q
  published search w (answered done, q) = (ok search, record w { queue = q })
  published search w (broken, q) = (err connection_error, record w { queue = q })

  unfoldable pub dispatch :
      DispatchMode → Option (Broker Q) → FlightSearch → World R Q → Result FlightSearch × World R Q
  dispatch inline b search w = (ok search, record w { tasks = w.tasks ++ search.id ∷ [] })
  dispatch rabbitmq none search w =
      (err (runtime_error "RabbitMQ dispatch selected without a broker"), w)
  dispatch rabbitmq (some b) search w = published search w (publish b search.id w.queue)

module _ {R Q : Type 0} (cache : Option (SearchCache R)) (broker : Option (Broker Q))
    (settings : Settings) (request_hash : Fields → String) where
  -- The search is committed before it is cached, and cached before it is dispatched.
  unfoldable pub start_new : String → FlightSearch → World R Q → Result FlightSearch × World R Q
  unfolding dispatch write_cache
  start_new key search w =
      if any (search_by_id search.id) w.db.searches
      then (err integrity_error, w)
      else (dispatch settings.search_dispatch_mode broker search (record w {
        db = add_search search w.db;
        redis = write_cache cache key (search_message search.id) w.redis;
      }))

  unfoldable pub start_found :
      Moment
      → String
      → SearchRequest
      → Option FlightSearch
      → World R Q
      → Result FlightSearch × World R Q
  unfolding start_new
  start_found at agent_id payload (some existing) w = (ok existing, w)
  start_found at agent_id payload none w =
      start_new (search_key request_hash agent_id payload)
        (new_search at settings.search_ttl_seconds agent_id payload) w

  unfoldable pub start :
      Moment → String → SearchRequest → World R Q → Result FlightSearch × World R Q
  unfolding start_found read_cache
  start at agent_id payload w =
      let (cached, r) = read_cache cache (search_key request_hash agent_id payload) w.redis in
      start_found at agent_id payload (cached_search at.now cached w.db) (record w { redis = r })

-- `selectinload(FlightSearch.offers)`
abbrev pub offers_of : FlightSearch → Db → List Offer
offers_of search db = select (λ o. o.search_id == search.id) db.offers

unfoldable pub get_owned : Option FlightSearch → Db → Result (FlightSearch × List Offer)
get_owned none db = err (error not_found "Search not found")
get_owned (some search) db = ok (search, offers_of search db)

unfoldable pub get : String → String → Db → Result (FlightSearch × List Offer)
unfolding get_owned
get search_id agent_id db =
    get_owned (scalar (λ s. s.id == search_id && s.agent_id == agent_id) db.searches) db
