-- ===== src/Application/Money/Funds.antt =====
-- Money is neither made nor lost while no issue starts on an order that another issue works on.
use mathlib.Core.Option
use ioka.Prelude.{
  ◌≡◌, refl, ap, ◌∙◌, String, true, false, Option, none, some, List, [], ◌∷◌, ◌++◌, inl, inr,
  Bool-cases, some-injective,
}
use mathlib.Core.Path.{subst}
use ioka.Prelude.Int.{◌+ℤ◌}
use ioka.Prelude.Lists.{any}
use ioka.Prelude.Rows.{scalar, scalar-append, scalar-of_any}
use ioka.Bytes.{Bytes, TextMethods}
use ioka.Security.Password.{Hashlib}
use ioka.Domain.Provider.{
  ProviderSearchRequest, ProviderBooking, Outcome, returned, raised, timed_out,
}
use ioka.Audit.{add_provider_audit}
use ioka.Models.{Db, Agent, Order, Offer, BalanceTransaction, Moment, agent_by_id}
use ioka.Schemas.{OrderCreate}
use ioka.Search.Start.{World}
use ioka.Search.Process.{begin_search}
use ioka.Booking.Create.{finish_booking, audit_failed_booking}
use ioka.Booking.Ledger.{funds, taken, payment_of}
use ioka.Booking.Concurrent.{Flight, System, request, answer, store, step}
use ioka.Booking.Concurrent.Safety.{IsSound}
use ioka.Booking.Concurrent.Flying.{works_on, Flying}
use ioka.Booking.Concurrent.Exclusive.{Kept, step-Kept, store-Kept}
use ioka.Main.{SeedSettings, default_agent, add_agent, add_default, seed_found, seed_default_agent}
use ioka.Application.{Services, empty_db, lifespan, create_schema}
use ioka.Application.Steps.{App, with_search, idle, Step, Reach}
use ioka.Application.Reachable.{Reach-Keeps}
use ioka.Application.Money.{tables, begin_search-tables, finish_search-tables, start_found-tables}
use ioka.Application.Money.Sound.{system, Step-IsSound}

abbrev of_tables : List Agent × List Order × List BalanceTransaction → Db
of_tables (agents, orders, transactions) = record empty_db {
  agents = agents;
  orders = orders;
  transactions = transactions;
}

-- The funds of the agents that were there stay, and each waiting issue has its money held.
record IsSteady (db db' : Db) (fs : List Flight) : Type 0 where
  flying : Flying db' fs
  same_funds : (b : String) → any (agent_by_id b) db.agents ≡ true → funds b db' ≡ funds b db

IsSteady-tables :
    (db db' : Db) (fs : List Flight) → tables db' ≡ tables db → Flying db fs → IsSteady db db' fs
IsSteady-tables db db' fs same h = record {
  flying = store-Kept db db' fs (λ k. ap (λ t. payment_of k (of_tables t)) same) h;
  same_funds = λ b stored. ap (λ t. funds b (of_tables t)) same;
}

IsSteady-Kept : (db : Db) (s : System) → Kept db s → IsSteady db s.db s.flights
IsSteady-Kept db s kept = record {
  flying = kept.flying;
  same_funds = λ b stored. kept.same_funds b;
}

module _ (hashlib : Hashlib) (methods : TextMethods) (settings : SeedSettings) where
  added_row :
      (agent : Agent) (b : String) (agents : List Agent)
      → any (agent_by_id b) agents ≡ true
      → scalar (agent_by_id b) (agents ++ agent ∷ []) ≡ scalar (agent_by_id b) agents
  added_row agent b agents stored =
      let (row, e) = scalar-of_any (agent_by_id b) agents stored in
      scalar-append (agent_by_id b) agents (agent ∷ []) ∙ rw e refl

  add_default-IsSteady :
      (new_id : String) (hash : Option String) (db db' : Db) (fs : List Flight)
      → Flying db fs
      → add_default hashlib methods settings new_id hash db ≡ some db'
      → IsSteady db db' fs
  add_default-IsSteady new_id none db db' fs h e = cc
  add_default-IsSteady new_id (some hash) db db' fs h e =
      subst (λ d. IsSteady db d fs) (some-injective _ _ e)
        (record {
          flying =
              store-Kept db (add_agent db (default_agent methods settings new_id hash)) fs
                (λ k. refl) h;
          same_funds = λ b stored.
              ap (Option.map (λ agent. agent.balance +ℤ taken b db.transactions))
                (added_row (default_agent methods settings new_id hash) b db.agents stored);
        })

  seed_found-IsSteady :
      (new_id : String) (salt : Bytes) (found : Option Agent) (db db' : Db) (fs : List Flight)
      → Flying db fs
      → seed_found hashlib methods settings new_id salt found db ≡ some db'
      → IsSteady db db' fs
  seed_found-IsSteady new_id salt (some agent) db db' fs h e =
      subst (λ d. IsSteady db d fs) (some-injective _ _ e) (IsSteady-tables db db fs refl h)
  seed_found-IsSteady new_id salt none db db' fs h e = add_default-IsSteady new_id _ db db' fs h e

finish_booking-IsSteady :
    (at : Moment) (agent_id : String) (payload : OrderCreate) (key payload_hash : String)
    (offer : Offer) (outcome : Outcome ProviderBooking) (s : System)
    → IsSound s
    → Flying s.db s.flights
    → IsSteady s.db
        (finish_booking at agent_id payload key payload_hash offer outcome s.db).1
        s.flights
unfolding finish_booking audit_failed_booking add_provider_audit step
finish_booking-IsSteady at agent_id payload key payload_hash offer (returned booking) s v h =
    IsSteady-Kept s.db (step (store at agent_id payload key payload_hash offer booking) s)
      (step-Kept (store at agent_id payload key payload_hash offer booking) [] s v h tt)
finish_booking-IsSteady at agent_id payload key payload_hash offer (raised message class) s v h =
    IsSteady-tables s.db _ s.flights refl h
finish_booking-IsSteady at agent_id payload key payload_hash offer (timed_out message) s v h =
    IsSteady-tables s.db _ s.flights refl h

module _ {R Q : Type 0} where
  with_search-IsSteady :
      (search_id : String) (r : Option ProviderSearchRequest × Db) (s : App R Q)
      → tables r.1 ≡ tables s.world.db
      → Flying s.world.db s.flights
      → let t = with_search search_id r s in IsSteady s.world.db t.world.db t.flights
  with_search-IsSteady search_id (none, db) s same h =
      IsSteady-tables s.world.db db s.flights same h
  with_search-IsSteady search_id (some asked, db) s same h =
      IsSteady-tables s.world.db db s.flights same h

module _ {R Q S : Type 0} (services : Services R Q S) where
  lifespan-IsSteady :
      (new_id : String) (salt : Bytes) (db db' : Db) (fs : List Flight)
      → Flying db fs
      → lifespan services new_id salt (some db) ≡ some db'
      → IsSteady db db' fs
  unfolding lifespan create_schema seed_default_agent
  lifespan-IsSteady new_id salt db db' fs h e = elim (Bool-cases services.auto_create_schema) [
    | inl creates ↦
        seed_found-IsSteady services.hashlib services.methods services.seed_settings new_id salt _
          db db' fs h (rw creates at e)
    | inr leaves ↦
        seed_found-IsSteady services.hashlib services.methods services.seed_settings new_id salt _
          db db' fs h (rw leaves at e)
  ]

  -- No issue starts on an order that another issue works on.
  abbrev pub IsApart : {s t : App R Q} → Step services s t → Type 0
  IsApart {s} (Step.issue_begun n agent_id order_id key h) =
      any (works_on order_id) s.flights ≡ false
  IsApart other = Unit {0}

  abbrev pub AllApart : {s t : App R Q} → Reach services s t → Type 0
  AllApart Reach.here = Unit {0}
  AllApart (Reach.next r st) = AllApart r × IsApart st

  Step-IsSteady :
      {s t : App R Q} (st : Step services s t)
      → IsApart st
      → IsSound (system s)
      → Flying s.world.db s.flights
      → IsSteady s.world.db t.world.db t.flights
  Step-IsSteady {s} (Step.launched new_id salt db fresh e) apart v h =
      lifespan-IsSteady new_id salt s.world.db db s.flights h e
  Step-IsSteady {s} (Step.signed_in credentials now agent e) apart v h =
      IsSteady-tables s.world.db s.world.db s.flights refl h
  Step-IsSteady {s} (Step.search_started n agent_id at payload cached redis e) apart v h =
      IsSteady-tables s.world.db _ s.flights
        (start_found-tables services.search_cache services.broker services.search_settings
          services.request_hash at agent_id payload cached (record s.world { redis = redis }))
        h
  Step-IsSteady {s} (Step.search_begun search_id) apart v h =
      with_search-IsSteady search_id (begin_search search_id s.world.db) s
        (begin_search-tables search_id s.world.db) h
  Step-IsSteady {s} (Step.search_ended n r at new_id outcome e a) apart v h =
      IsSteady-tables s.world.db _ s.flights
        (finish_search-tables services.integrity_text at new_id (services.provider at.now).name
          r.search_id r.request s.world.db outcome)
        h
  Step-IsSteady {s} (Step.booking_begun n agent_id at payload key offer e read) apart v h =
      IsSteady-tables s.world.db s.world.db s.flights refl h
  Step-IsSteady {s} (Step.booking_ended n b at payload_hash outcome e) apart v h =
      finish_booking-IsSteady at b.agent_id b.payload b.key payload_hash b.offer outcome (system s)
        v h
  Step-IsSteady {s} (Step.issue_begun n agent_id order_id key e) apart v h =
      IsSteady-Kept s.world.db (step (request agent_id order_id key) (system s))
        (step-Kept (request agent_id order_id key) [] (system s) v h (apart, tt))
  Step-IsSteady {s} (Step.issue_ended n d outcome) apart v h =
      IsSteady-Kept s.world.db (step (answer n d outcome) (system s))
        (step-Kept (answer n d outcome) [] (system s) v h tt)

  -- What a run of the application leaves.
  record IsKept (db : Db) (t : App R Q) : Type 0 where
    sound : IsSound (system t)
    steady : IsSteady db t.world.db t.flights

  -- From a database in which orders and balance transactions agree, and without requests: if no
  -- issue starts on an order that another issue works on, then in every state that the application
  -- reaches each agent that was there has the same funds as at first, which are its balance together
  -- with what is held or captured from it.
  pub Reach-funds :
      (w : World R Q) {t : App R Q} (r : Reach services (idle w) t)
      → AllApart r
      → IsSound (system (idle w))
      → (b : String) → any (agent_by_id b) w.db.agents ≡ true
      → funds b t.world.db ≡ funds b w.db
  Reach-funds w r apart v b stored = (kept r apart).steady.same_funds b stored
    where
      kept : {t : App R Q} (r : Reach services (idle w) t) → AllApart r → IsKept w.db t
      kept Reach.here apart = record { sound = v; steady = IsSteady-tables w.db w.db [] refl tt }
      kept (Reach.next q st) apart =
          let before = kept q apart.0 in
          let after = Step-IsSteady st apart.1 before.sound before.steady.flying in
          record {
            sound = Step-IsSound services st before.sound;
            steady = record {
              flying = after.flying;
              same_funds = λ b stored.
                  after.same_funds b ((Reach-Keeps services w q).agents b stored)
                  ∙ before.steady.same_funds b stored;
            };
          }
