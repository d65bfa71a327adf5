-- ===== src/Search/Start/Created.antt =====
-- What `start` stores and dispatches for a request that the cache does not answer, and what `get`
-- answers.
use mathlib.Core.Path.{subst}
use ioka.Prelude.{
  String, ◌≡◌, refl, sym, ap, ◌∙◌, false, Option, none, some, List, [], ◌∷◌, ◌++◌, eq_refl, ◌==◌,
  ◌&&◌, arith, eq_iff,
}
use ioka.Prelude.Lists.{any}
use ioka.Prelude.Rows.{scalar, select, scalar-holds, any-of_none}
use ioka.Json.{Fields}
use ioka.Exceptions.{Result, ok, err, runtime_error, connection_error}
use ioka.Models.{Db, FlightSearch, Offer, Moment, search_by_id}
use ioka.Schemas.{SearchRequest}
use ioka.Audit.{add_status_audit}
use ioka.Cache.{SearchCache, Reply, answered, broken}
use ioka.Broker.{Broker, publish}
use ioka.Search.Start.{
  DispatchMode, inline, rabbitmq, Settings, World, cached_search, new_search, add_search,
  search_key, read_cache, start, offers_of, get_owned, get,
}
use ioka.Search.Start.Reuse.{dispatch_same, start_stores, stored}

-- What a new search has stored: its row, PENDING, and an audit row; `get` answers its agent with it.
abbrev pub IsCreated : String → FlightSearch → Db → Db → Type 0
IsCreated a search db db' =
    (db'.searches ≡ db.searches ++ search ∷ [])
    × (record db' { searches = db.searches; audit_logs = db.audit_logs } ≡ db)
    × (get search.id a db' ≡ ok (search, offers_of search db))

-- The broker's answer is the caller's.
abbrev pub IsPublished :
    {R Q : Type 0}
    → FlightSearch
    → World R Q
    → Reply (Unit {0}) × Q
    → Result FlightSearch
    → World R Q
    → Type 0
IsPublished search w (answered done, q) r v = (r ≡ ok search) × (v.tasks ≡ w.tasks) × (v.queue ≡ q)
IsPublished search w (broken, q) r v =
    (r ≡ err connection_error) × (v.tasks ≡ w.tasks) × (v.queue ≡ q)

-- How it is dispatched: to a task, to the queue, or not at all.
abbrev pub IsDispatched :
    {R Q : Type 0}
    → DispatchMode
    → Option (Broker Q)
    → FlightSearch
    → World R Q
    → Result FlightSearch
    → World R Q
    → Type 0
IsDispatched inline broker search w r v =
    (r ≡ ok search) × (v.tasks ≡ w.tasks ++ search.id ∷ []) × (v.queue ≡ w.queue)
IsDispatched rabbitmq none search w r v =
    (r ≡ err (runtime_error "RabbitMQ dispatch selected without a broker"))
    × (v.tasks ≡ w.tasks)
    × (v.queue ≡ w.queue)
IsDispatched rabbitmq (some b) search w r v = IsPublished search w (publish b search.id w.queue) r v

fresh_search :
    (search : FlightSearch) (ss : List FlightSearch)
    → any (search_by_id search.id) ss ≡ false
    → scalar (λ s. s.id == search.id && s.agent_id == search.agent_id) (ss ++ search ∷ [])
      ≡ some search
unfolding scalar
fresh_search search [] h = rw (eq_refl search.id, eq_refl search.agent_id)
fresh_search search (s ∷ ss) h = ground (arith, fresh_search search ss)

add_search-IsCreated :
    (search : FlightSearch) (db : Db)
    → any (search_by_id search.id) db.searches ≡ false
    → IsCreated search.agent_id search db (add_search search db)
unfolding add_search add_status_audit get get_owned
add_search-IsCreated search db fresh =
    let row = fresh_search search db.searches fresh in (refl, refl, rw row)

module _ {R Q : Type 0} (cache : Option (SearchCache R)) (broker : Option (Broker Q))
    (settings : Settings) (request_hash : Fields → String) (at : Moment) (a : String)
    (payload : SearchRequest) (w : World R Q)
    (missed : cached_search at.now
        (read_cache cache (search_key request_hash a payload) w.redis).0
        w.db
      ≡ none)
    (fresh : any (search_by_id at.new_id) w.db.searches ≡ false) where
  abbrev new : FlightSearch
  new = new_search at settings.search_ttl_seconds a payload

  pub start-IsCreated :
      IsCreated a new w.db (start cache broker settings request_hash at a payload w).1.db
  start-IsCreated =
      let same =
        dispatch_same new (stored cache broker settings request_hash at a payload w)
          settings.search_dispatch_mode broker in
      let stores = start_stores cache broker settings request_hash at a payload w missed fresh in
      subst (IsCreated a new w.db)
        (sym (ap (λ (r : Result FlightSearch × World R Q). r.1.db) stores ∙ same.0))
        (add_search-IsCreated new w.db fresh)

-- What `get` answers is the search of that id and of that agent, with the offers that it brought.
abbrev pub IsOwned : String → String → Db → Result (FlightSearch × List Offer) → Type 0
IsOwned search_id a db (ok (search, offers)) =
    (search.id ≡ search_id)
    × (search.agent_id ≡ a)
    × (offers ≡ select (λ o. o.search_id == search_id) db.offers)
IsOwned search_id a db (err e) = any (λ s. s.id == search_id && s.agent_id == a) db.searches ≡ false

get_owned-IsOwned :
    (search_id a : String) (db : Db) (found : Option FlightSearch)
    → scalar (λ s. s.id == search_id && s.agent_id == a) db.searches ≡ found
    → IsOwned search_id a db (get_owned found db)
unfolding get_owned
get_owned-IsOwned search_id a db none e = any-of_none _ db.searches e
get_owned-IsOwned search_id a db (some search) e =
    let hit = scalar-holds (λ s. s.id == search_id && s.agent_id == a) db.searches search e in
    let same : search.id ≡ search_id = ground (arith, eq_iff search.id search_id) in
    (same, ground (arith, eq_iff search.agent_id a), rw same)

-- `get` answers with the search of the given id if it is the agent's own, and with all of the offers
-- that it brought and no other; it raises only if the agent has no search of that id.
pub get-IsOwned : (search_id a : String) (db : Db) → IsOwned search_id a db (get search_id a db)
unfolding get
get-IsOwned search_id a db = get_owned-IsOwned search_id a db _ refl
