-- ===== src/Application/Writes/Search.antt =====
-- The writes of the search service: of `start` for an agent that is stored, and of the two sessions
-- of `process`.
use ioka.Prelude.{
  ℕ, suc, ◌≡◌, refl, String, true, Option, none, some, List, [], ◌∷◌, ◌++◌, inl, inr, Bool-cases,
}
use mathlib.Core.Path.{subst}
use ioka.Prelude.Lists.{any, length}
use ioka.Prelude.Rows.{scalar}
use ioka.Prelude.Each.{Each}
use ioka.Prelude.Keys.{any-of_found}
use ioka.Json.{Fields}
use ioka.Domain.Enums.{is_final}
use ioka.Domain.Provider.{
  ProviderSearchRequest, ProviderOffer, Outcome, returned, raised, timed_out,
}
use ioka.Audit.{add_status_audit, add_provider_audit}
use ioka.Models.{Db, FlightSearch, Offer, Moment, agent_by_id, search_by_id}
use ioka.Schemas.{SearchRequest}
use ioka.Cache.{SearchCache, Reply, answered, broken}
use ioka.Broker.{Broker, publish}
use ioka.Search.Start.{
  DispatchMode, inline, rabbitmq, Settings, World, new_search, add_search, published, dispatch,
  start_new, start_found,
}
use ioka.Search.Process.{
  start_search, begin_row, begin_search, offer_row, same_offer, add_offers, completed_search,
  complete, fail, fail_row, fail_search, store_rows, or_fail, finish_search,
}
use ioka.Application.Writes.{Write, Writes, done, more}

module _ {R Q : Type 0} where
  published-db :
      (search : FlightSearch) (w : World R Q) (r : Reply (Unit {0}) × Q)
      → (published search w r).1.db ≡ w.db
  published-db search w (answered x, q) = refl
  published-db search w (broken, q) = refl

  pub dispatch-db :
      (mode : DispatchMode) (b : Option (Broker Q)) (search : FlightSearch) (w : World R Q)
      → (dispatch mode b search w).1.db ≡ w.db
  unfolding dispatch
  dispatch-db inline b search w = refl
  dispatch-db rabbitmq none search w = refl
  dispatch-db rabbitmq (some b) search w = published-db search w (publish b search.id w.queue)

module _ (P : Offer → Type 0) where
  module _ {R Q : Type 0} (cache : Option (SearchCache R)) (broker : Option (Broker Q))
      (settings : Settings) (request_hash : Fields → String) (at : Moment) (agent_id : String)
      (payload : SearchRequest) where
    pub start_found-Writes :
        (cached : Option FlightSearch) (w : World R Q)
        → any (agent_by_id agent_id) w.db.agents ≡ true
        → Writes P w.db
            (start_found cache broker settings request_hash at agent_id payload cached w).1.db
    unfolding start_found start_new add_search add_status_audit
    start_found-Writes (some existing) w is_agent = done
    start_found-Writes none w is_agent =
        elim (Bool-cases (any (search_by_id at.new_id) w.db.searches)) [
          | inl taken ↦ rw taken done
          | inr free ↦
              rw
                (
                  free,
                  dispatch-db settings.search_dispatch_mode broker
                      (new_search at settings.search_ttl_seconds agent_id payload) _,
                )
                (more
                  (more done (
                    Write.add_search (new_search at settings.search_ttl_seconds agent_id payload)
                      is_agent free))
                  (Write.log _))
        ]

  pub begin_search-Writes :
      (search_id : String) (db : Db) → Writes P db (begin_search search_id db).1
  unfolding begin_search begin_row add_status_audit
  begin_search-Writes search_id db = row (scalar (search_by_id search_id) db.searches)
    where
      row : (found : Option FlightSearch) → Writes P db (begin_row found db).1
      row none = done
      row (some search) = elim (Bool-cases (is_final search.status)) [
        | inl over ↦ rw over done
        | inr still ↦ rw still (
            more
              (more done
                (Write.set_search (search_by_id search.id) start_search (λ x. refl) (λ x. refl)))
              (Write.log _))
      ]

  fail_search-Writes :
      (at : Moment) (search_id : String) (request : ProviderSearchRequest)
      (failure : Outcome (List ProviderOffer)) (db : Db)
      → Writes P db (fail_search at search_id request failure db)
  unfolding fail_search fail_row add_status_audit add_provider_audit
  fail_search-Writes at search_id request failure db =
      row (scalar (search_by_id search_id) db.searches)
    where
      row : (found : Option FlightSearch) → Writes P db (fail_row at request failure found db)
      row none = done
      row (some search) =
          more
            (more
              (more done
                (Write.set_search (search_by_id search.id) (fail failure) (λ x. refl) (λ x. refl)))
              (Write.log _))
            (Write.log _)

  -- Whatever its identifier, the row of an offer is as `P` says.
  abbrev pub Allows : String → String → ProviderOffer → Type 0
  Allows provider search_id item = (id : String) → P (offer_row provider search_id id item)

  abbrev pub Allowed : String → String → Outcome (List ProviderOffer) → Type 0
  Allowed provider search_id (returned items) = Each (Allows provider search_id) items
  Allowed provider search_id failure = Unit {0}

  -- The INSERTs of the offers of a search that is stored.
  module _ (new_id : ℕ → String) (provider search_id : String) (db : Db)
      (is_search : any (search_by_id search_id) db.searches ≡ true) where
    add_offers-Writes :
        (n : ℕ) (items : List ProviderOffer) (rows rows' : List Offer)
        → Each (Allows provider search_id) items
        → add_offers new_id provider search_id n items rows ≡ some rows'
        → Writes P db (record db { offers = rows })
        → Writes P db (record db { offers = rows' })
    unfolding add_offers offer_row
    add_offers-Writes n [] rows rows' allowed e ws =
        subst (λ r. Writes P db (record db { offers = r })) (same e) ws
      where
        same : some rows ≡ some rows' → rows ≡ rows'
        same h = cc
    add_offers-Writes n (item ∷ items) rows rows' allowed e ws =
        let row = offer_row provider search_id (new_id n) item in
        elim (Bool-cases (any (same_offer row) rows)) [
          | inl clash ↦ absurd (nothing (rw clash at e))
          | inr free ↦
              add_offers-Writes (suc n) items (rows ++ row ∷ []) rows' allowed.1 (rw free at e)
                (more ws (Write.add_offer row (allowed.0 (new_id n)) is_search free))
        ]
      where
        nothing : none ≡ some rows' → ⊥
        nothing x = cc

  module _ (integrity_text : String) (at : Moment) (new_id : ℕ → String)
      (provider search_id : String) (request : ProviderSearchRequest) (db : Db) where
    store_rows-Writes :
        (items : List ProviderOffer) (found : Option FlightSearch) (adds : Option (List Offer))
        → Each (Allows provider search_id) items
        → scalar (search_by_id search_id) db.searches ≡ found
        → add_offers new_id provider search_id 0 items db.offers ≡ adds
        → Writes P db (
            or_fail integrity_text at search_id request
              (store_rows at request (length items) found adds db)
              db)
    unfolding or_fail store_rows completed_search add_status_audit add_provider_audit
    store_rows-Writes items none adds allowed e a = done
    store_rows-Writes items (some search) none allowed e a =
        fail_search-Writes at search_id request _ db
    store_rows-Writes items (some search) (some rows) allowed e a =
        more
          (more
            (more
              (add_offers-Writes new_id provider search_id db
                (any-of_found (search_by_id search_id) db.searches search e) 0 items db.offers rows
                allowed a done)
              (Write.set_search (search_by_id search.id) (complete at) (λ x. refl) (λ x. refl)))
            (Write.log _))
          (Write.log _)

    pub finish_search-Writes :
        (outcome : Outcome (List ProviderOffer))
        → Allowed provider search_id outcome
        → Writes P db (finish_search integrity_text at new_id provider search_id request outcome db)
    unfolding finish_search
    finish_search-Writes (returned items) allowed = store_rows-Writes items _ _ allowed refl refl
    finish_search-Writes (raised message class) allowed =
        fail_search-Writes at search_id request _ db
    finish_search-Writes (timed_out message) allowed = fail_search-Writes at search_id request _ db
