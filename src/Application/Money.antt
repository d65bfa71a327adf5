-- ===== src/Application/Money.antt =====
-- Money in every state that the application reaches: the sessions of the search service leave the
-- tables of the booking service alone.
pub mod Solvent
pub mod Sound
pub mod Funds
use ioka.Prelude.{ℕ, ◌≡◌, refl, String, Option, none, some, List, inl, inr, Bool-cases}
use ioka.Prelude.Lists.{any, length}
use ioka.Prelude.Rows.{scalar}
use ioka.Json.{Fields}
use ioka.Domain.Enums.{is_final}
use ioka.Domain.Provider.{
  ProviderSearchRequest, ProviderOffer, Outcome, returned, raised, timed_out,
}
use ioka.Audit.{add_status_audit, add_provider_audit}
use ioka.Models.{Db, Agent, FlightSearch, Offer, Order, BalanceTransaction, Moment, search_by_id}
use ioka.Schemas.{SearchRequest}
use ioka.Cache.{SearchCache}
use ioka.Broker.{Broker}
use ioka.Search.Start.{Settings, World, new_search, add_search, start_new, start_found}
use ioka.Search.Process.{
  begin_row, begin_search, completed_search, fail_row, fail_search, store_rows, or_fail,
  finish_search,
}
use ioka.Application.Writes.Search.{dispatch-db}

-- The tables of the booking service.
abbrev pub tables : Db → List Agent × List Order × List BalanceTransaction
tables db = (db.agents, db.orders, db.transactions)

pub begin_search-tables :
    (search_id : String) (db : Db) → tables (begin_search search_id db).1 ≡ tables db
unfolding begin_search begin_row add_status_audit
begin_search-tables search_id db = row (scalar (search_by_id search_id) db.searches)
  where
    row : (found : Option FlightSearch) → tables (begin_row found db).1 ≡ tables db
    row none = refl
    row (some search) = elim (Bool-cases (is_final search.status)) [
      | inl over ↦ rw over refl
      | inr still ↦ rw still refl
    ]

fail_search-tables :
    (at : Moment) (search_id : String) (request : ProviderSearchRequest)
    (failure : Outcome (List ProviderOffer)) (db : Db)
    → tables (fail_search at search_id request failure db) ≡ tables db
unfolding fail_search fail_row add_status_audit add_provider_audit
fail_search-tables at search_id request failure db =
    row (scalar (search_by_id search_id) db.searches)
  where
    row : (found : Option FlightSearch) → tables (fail_row at request failure found db) ≡ tables db
    row none = refl
    row (some search) = refl

module _ (integrity_text : String) (at : Moment) (new_id : ℕ → String) (provider search_id : String)
    (request : ProviderSearchRequest) (db : Db) where
  store_rows-tables :
      (n : ℕ) (found : Option FlightSearch) (adds : Option (List Offer))
      → tables
          (or_fail integrity_text at search_id request (store_rows at request n found adds db) db)
        ≡ tables db
  unfolding or_fail store_rows completed_search add_status_audit add_provider_audit
  store_rows-tables n none adds = refl
  store_rows-tables n (some search) none = fail_search-tables at search_id request _ db
  store_rows-tables n (some search) (some rows) = refl

  pub finish_search-tables :
      (outcome : Outcome (List ProviderOffer))
      → tables (finish_search integrity_text at new_id provider search_id request outcome db)
        ≡ tables db
  unfolding finish_search
  finish_search-tables (returned items) = store_rows-tables (length items) _ _
  finish_search-tables (raised message class) = fail_search-tables at search_id request _ db
  finish_search-tables (timed_out message) = fail_search-tables at search_id request _ db

module _ {R Q : Type 0} (cache : Option (SearchCache R)) (broker : Option (Broker Q))
    (settings : Settings) (request_hash : Fields → String) (at : Moment) (agent_id : String)
    (payload : SearchRequest) where
  pub start_found-tables :
      (cached : Option FlightSearch) (w : World R Q)
      → tables (start_found cache broker settings request_hash at agent_id payload cached w).1.db
        ≡ tables w.db
  unfolding start_found start_new add_search add_status_audit
  start_found-tables (some existing) w = refl
  start_found-tables none w = elim (Bool-cases (any (search_by_id at.new_id) w.db.searches)) [
    | inl taken ↦ rw taken refl
    | inr free ↦
        rw
          (
            free,
            dispatch-db settings.search_dispatch_mode broker
                (new_search at settings.search_ttl_seconds agent_id payload) _,
          )
          refl
  ]
