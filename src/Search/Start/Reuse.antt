-- ===== src/Search/Start/Reuse.antt =====
-- `start` for a request that it has answered before.
use ioka.Prelude.{String, ◌≡◌, refl, ap, ◌∙◌, false, Option, none, some, [], ◌∷◌, eq_refl}
use ioka.Prelude.Lists.{any}
use ioka.Prelude.Rows.{scalar, scalar-append, scalar-eq-none}
use ioka.Json.{Fields, search_message}
use ioka.Domain.Calendar.{has_passed}
use ioka.Exceptions.{Result, ok}
use ioka.Models.{Db, FlightSearch, Moment, search_by_id}
use ioka.Schemas.{SearchRequest}
use ioka.Audit.{add_status_audit}
use ioka.Cache.{SearchCache, cache_get, IsWorking, cache_get-cache_set, Reply, answered, broken}
use ioka.Broker.{Broker}
use ioka.Search.Start.{
  DispatchMode, inline, rabbitmq, Settings, World, cached_search, new_search, add_search,
  search_key, read_cache, write_cache, dispatch, start_new, start_found, start, published,
}

-- A search whose id is new is found after it was added.
pub added_row :
    (search : FlightSearch) (db : Db)
    → any (search_by_id search.id) db.searches ≡ false
    → scalar (search_by_id search.id) (add_search search db).searches ≡ some search
unfolding add_search add_status_audit scalar
added_row search db fresh =
    scalar-append (search_by_id search.id) db.searches (search ∷ [])
    ∙ rw (scalar-eq-none (search_by_id search.id) db.searches fresh, eq_refl search.id)

-- Dispatching a search touches neither the database nor the cache.
module _ {R Q : Type 0} (search : FlightSearch) (w : World R Q) where
  published_same :
      (reply : Reply (Unit {0}) × Q)
      → ((published search w reply).1.db ≡ w.db) × ((published search w reply).1.redis ≡ w.redis)
  published_same (answered done, q) = (refl, refl)
  published_same (broken, q) = (refl, refl)

  pub dispatch_same :
      (mode : DispatchMode) (broker : Option (Broker Q))
      → ((dispatch mode broker search w).1.db ≡ w.db)
        × ((dispatch mode broker search w).1.redis ≡ w.redis)
  unfolding dispatch
  dispatch_same inline broker = (refl, refl)
  dispatch_same rabbitmq none = (refl, refl)
  dispatch_same rabbitmq (some b) = published_same _

module _ {R Q : Type 0} (cache : Option (SearchCache R)) (broker : Option (Broker Q))
    (settings : Settings) (request_hash : Fields → String) (at : Moment) (a : String)
    (payload : SearchRequest) (w : World R Q) where
  abbrev key : String
  key = search_key request_hash a payload

  abbrev pub created : FlightSearch
  created = new_search at settings.search_ttl_seconds a payload

  abbrev pub stored : World R Q
  stored = record w {
    db = add_search created w.db;
    redis = write_cache cache key (search_message at.new_id) (read_cache cache key w.redis).1;
  }

  module _ (missed : cached_search at.now (read_cache cache key w.redis).0 w.db ≡ none)
      (fresh : any (search_by_id at.new_id) w.db.searches ≡ false) where
    pub start_stores :
        start cache broker settings request_hash at a payload w
        ≡ dispatch settings.search_dispatch_mode broker created stored
    unfolding start start_found start_new
    start_stores = rw (missed, fresh)

module _ {R Q : Type 0} (c : SearchCache R) (broker : Option (Broker Q)) (settings : Settings)
    (request_hash : Fields → String) (a : String) (payload : SearchRequest) where
  -- a search that the cache names and that has not expired is the answer
  start_known :
      (at : Moment) (v : World R Q) (existing : FlightSearch)
      → cache_get c (search_key request_hash a payload) v.redis
        ≡ (some (search_message existing.id), v.redis)
      → scalar (search_by_id existing.id) v.db.searches ≡ some existing
      → has_passed existing.expires_at at.now ≡ false
      → start (some c) broker settings request_hash at a payload v ≡ (ok existing, v)
  unfolding start start_found read_cache
  start_known at v existing cached found lasting = rw (cached, found, lasting)

  module _ (works : IsWorking c) (at : Moment) (w : World R Q)
      (missed : cached_search at.now
          (read_cache (some c) (search_key request_hash a payload) w.redis).0
          w.db
        ≡ none)
      (fresh : any (search_by_id at.new_id) w.db.searches ≡ false) where
    abbrev new : FlightSearch
    new = new_search at settings.search_ttl_seconds a payload

    abbrev after : World R Q
    after = (start (some c) broker settings request_hash at a payload w).1

    after_db : after.db ≡ add_search new w.db
    after_db =
        ap (λ (r : Result FlightSearch × World R Q). r.1.db)
          (start_stores (some c) broker settings request_hash at a payload w missed fresh)
        ∙ (dispatch_same new (stored (some c) broker settings request_hash at a payload w)
            settings.search_dispatch_mode broker).0

    after_redis :
        after.redis
        ≡ write_cache
            (some c)
            (search_key request_hash a payload)
            (search_message at.new_id)
            (read_cache (some c) (search_key request_hash a payload) w.redis).1
    after_redis =
        ap (λ (r : Result FlightSearch × World R Q). r.1.redis)
          (start_stores (some c) broker settings request_hash at a payload w missed fresh)
        ∙ (dispatch_same new (stored (some c) broker settings request_hash at a payload w)
            settings.search_dispatch_mode broker).1

    cached :
        cache_get c (search_key request_hash a payload) after.redis
        ≡ (some (search_message at.new_id), after.redis)
    unfolding write_cache
    cached = rw after_redis (cache_get-cache_set c works _ at.new_id _)

    -- After a request that the cache did not answer, with a new id drawn for its search: where the
    -- cache works and the clock has not reached the search's expiry, a second request with the same
    -- agent and body is answered with the search that the first one stored; it stores, caches and
    -- dispatches nothing, also when the first one failed to dispatch it.
    pub start-start :
        (later : Moment)
        → has_passed new.expires_at later.now ≡ false
        → start (some c) broker settings request_hash later a payload after ≡ (ok new, after)
    start-start later lasting =
        start_known later after new cached
          (ap (λ (db : Db). scalar (search_by_id at.new_id) db.searches) after_db
            ∙ added_row new w.db fresh)
          lasting
