-- ===== src/Application/Money/Sound.antt =====
-- Orders and payments agree in every state that the application reaches.
use ioka.Prelude.{
  ◌≡◌, refl, sym, ap, String, Option, none, some, List, [], ◌∷◌, inl, inr, Bool-cases,
  some-injective,
}
use mathlib.Core.Path.{subst}
use ioka.Bytes.{Bytes, TextMethods}
use ioka.Security.Password.{Hashlib}
use ioka.Domain.Provider.{
  ProviderSearchRequest, ProviderBooking, Outcome, returned, raised, timed_out,
}
use ioka.Audit.{add_provider_audit}
use ioka.Models.{Db, Agent, Order, Offer, BalanceTransaction, Moment}
use ioka.Schemas.{OrderCreate}
use ioka.Search.Process.{begin_search}
use ioka.Booking.Create.{finish_booking, audit_failed_booking}
use ioka.Booking.Ledger.{IsLedger}
use ioka.Booking.Concurrent.{Flight, System, request, answer, store, step, run}
use ioka.Booking.Concurrent.Safety.{IsSound, AllOwned, run-IsSound}
use ioka.Main.{SeedSettings, add_default, seed_found, seed_default_agent}
use ioka.Application.{Services, empty_db, lifespan, create_schema}
use ioka.Application.Steps.{App, with_search, Step, Reach}
use ioka.Application.Money.{tables, begin_search-tables, finish_search-tables, start_found-tables}

-- What the issues of a state work on.
abbrev pub system : {R Q : Type 0} → App R Q → System
system s = record { db = s.world.db; flights = s.flights }

-- the tables of orders and payments alone
abbrev payments : List Order × List BalanceTransaction → Db
payments (orders, transactions) = record empty_db { orders = orders; transactions = transactions }

abbrev books : Db → List Order × List BalanceTransaction
books db = (db.orders, db.transactions)

IsLedger-payments : (db : Db) → IsLedger db → IsLedger (payments (books db))
IsLedger-payments db v = record {
  one_owner = v.one_owner;
  matched = v.matched;
  grounded = v.grounded;
  agreed = v.agreed;
}

IsLedger-of_payments : (db : Db) → IsLedger (payments (books db)) → IsLedger db
IsLedger-of_payments db v = record {
  one_owner = v.one_owner;
  matched = v.matched;
  grounded = v.grounded;
  agreed = v.agreed;
}

AllOwned-payments :
    (db : Db) (fs : List Flight) → AllOwned db fs → AllOwned (payments (books db)) fs
AllOwned-payments db [] h = tt
AllOwned-payments db (f ∷ fs) h = (h.0, AllOwned-payments db fs h.1)

AllOwned-of_payments :
    (db : Db) (fs : List Flight) → AllOwned (payments (books db)) fs → AllOwned db fs
AllOwned-of_payments db [] h = tt
AllOwned-of_payments db (f ∷ fs) h = (h.0, AllOwned-of_payments db fs h.1)

-- A session that leaves orders and payments alone.
IsSound-books :
    (db db' : Db) (fs : List Flight)
    → books db' ≡ books db
    → IsSound (record { db = db; flights = fs })
    → IsSound (record { db = db'; flights = fs })
IsSound-books db db' fs same v = record {
  ledger =
      IsLedger-of_payments db'
        (subst (λ b. IsLedger (payments b)) (sym same) (IsLedger-payments db v.ledger));
  owned =
      AllOwned-of_payments db' fs
        (subst (λ b. AllOwned (payments b) fs) (sym same) (AllOwned-payments db fs v.owned));
}

abbrev of_tables :
    List Agent × List Order × List BalanceTransaction → List Order × List BalanceTransaction
of_tables (agents, orders, transactions) = (orders, transactions)

IsSound-tables :
    (db db' : Db) (fs : List Flight)
    → tables db' ≡ tables db
    → IsSound (record { db = db; flights = fs })
    → IsSound (record { db = db'; flights = fs })
IsSound-tables db db' fs same v = IsSound-books db db' fs (ap of_tables same) v

module _ (hashlib : Hashlib) (methods : TextMethods) (settings : SeedSettings) where
  add_default-books :
      (new_id : String) (hash : Option String) (db db' : Db)
      → add_default hashlib methods settings new_id hash db ≡ some db'
      → books db' ≡ books db
  add_default-books new_id none db db' h = cc
  add_default-books new_id (some hash) db db' h = ap books (sym (some-injective _ _ h))

  seed_found-books :
      (new_id : String) (salt : Bytes) (found : Option Agent) (db db' : Db)
      → seed_found hashlib methods settings new_id salt found db ≡ some db'
      → books db' ≡ books db
  seed_found-books new_id salt (some agent) db db' h = ap books (sym (some-injective _ _ h))
  seed_found-books new_id salt none db db' h = add_default-books new_id _ db db' h

lifespan-books :
    {R Q S : Type 0} (services : Services R Q S) (new_id : String) (salt : Bytes) (db db' : Db)
    → lifespan services new_id salt (some db) ≡ some db'
    → books db' ≡ books db
unfolding lifespan create_schema seed_default_agent
lifespan-books services new_id salt db db' h = elim (Bool-cases services.auto_create_schema) [
  | inl creates ↦
      seed_found-books services.hashlib services.methods services.seed_settings new_id salt _ db db'
        (rw creates at h)
  | inr leaves ↦
      seed_found-books services.hashlib services.methods services.seed_settings new_id salt _ db db'
        (rw leaves at h)
]

finish_booking-IsSound :
    (at : Moment) (agent_id : String) (payload : OrderCreate) (key payload_hash : String)
    (offer : Offer) (outcome : Outcome ProviderBooking) (s : System)
    → IsSound s
    → IsSound (record s {
      db = (finish_booking at agent_id payload key payload_hash offer outcome s.db).1;
    })
unfolding finish_booking audit_failed_booking add_provider_audit run step
finish_booking-IsSound at agent_id payload key payload_hash offer (returned booking) s v =
    run-IsSound (store at agent_id payload key payload_hash offer booking ∷ []) s v
finish_booking-IsSound at agent_id payload key payload_hash offer (raised message class) s v =
    IsSound-books s.db _ s.flights refl v
finish_booking-IsSound at agent_id payload key payload_hash offer (timed_out message) s v =
    IsSound-books s.db _ s.flights refl v

module _ {R Q : Type 0} where
  with_search-IsSound :
      (search_id : String) (r : Option ProviderSearchRequest × Db) (s : App R Q)
      → tables r.1 ≡ tables s.world.db
      → IsSound (system s)
      → IsSound (system (with_search search_id r s))
  with_search-IsSound search_id (none, db) s same v = IsSound-tables s.world.db db s.flights same v
  with_search-IsSound search_id (some asked, db) s same v =
      IsSound-tables s.world.db db s.flights same v

module _ {R Q S : Type 0} (services : Services R Q S) where
  pub Step-IsSound : {s t : App R Q} → Step services s t → IsSound (system s) → IsSound (system t)
  unfolding run
  Step-IsSound {s} (Step.launched new_id salt db fresh h) v =
      IsSound-books s.world.db db s.flights (lifespan-books services new_id salt s.world.db db h) v
  Step-IsSound (Step.signed_in credentials now agent h) v = v
  Step-IsSound {s} (Step.search_started n agent_id at payload cached redis h) v =
      IsSound-tables s.world.db _ s.flights
        (start_found-tables services.search_cache services.broker services.search_settings
          services.request_hash at agent_id payload cached (record s.world { redis = redis }))
        v
  Step-IsSound {s} (Step.search_begun search_id) v =
      with_search-IsSound search_id (begin_search search_id s.world.db) s
        (begin_search-tables search_id s.world.db) v
  Step-IsSound {s} (Step.search_ended n r at new_id outcome h e) v =
      IsSound-tables s.world.db _ s.flights
        (finish_search-tables services.integrity_text at new_id (services.provider at.now).name
          r.search_id r.request s.world.db outcome)
        v
  Step-IsSound (Step.booking_begun n agent_id at payload key offer h read) v = v
  Step-IsSound {s} (Step.booking_ended n b at payload_hash outcome h) v =
      finish_booking-IsSound at b.agent_id b.payload b.key payload_hash b.offer outcome (system s) v
  Step-IsSound {s} (Step.issue_begun n agent_id order_id key h) v =
      run-IsSound (request agent_id order_id key ∷ []) (system s) v
  Step-IsSound {s} (Step.issue_ended n d outcome) v =
      run-IsSound (answer n d outcome ∷ []) (system s) v

  -- From a state of which this holds, the application reaches only states of which it holds: every
  -- order has one owner, every balance transaction is of an order that is there and has that order's
  -- agent and amount, the order's status and its payment status agree (ISSUED with CAPTURED, ISSUING
  -- with HELD, BOOKED or CANCELLED with RELEASED or no transaction), and every issue that waits for
  -- the provider works on an order of its own agent.
  pub Reach-IsSound : {s t : App R Q} → Reach services s t → IsSound (system s) → IsSound (system t)
  Reach-IsSound Reach.here v = v
  Reach-IsSound (Reach.next r st) v = Step-IsSound st (Reach-IsSound r v)
