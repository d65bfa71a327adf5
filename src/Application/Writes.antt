-- ===== src/Application/Writes.antt =====
-- What a session may write: the INSERTs and UPDATEs of app/application and app/main.py one by one,
-- each with what is known of it when it is sent. Every session is a sequence of these, and the
-- constraints of app/infrastructure/models.py are invariants of each. `P` is what is known of each new
-- offer.
pub mod Issue
pub mod Settle
pub mod Create
pub mod Search
pub mod Start
use ioka.Prelude.{◌≡◌, String, Bool, true, false, not, none, [], ◌∷◌, ◌++◌, ◌==◌, ◌&&◌, is_text}
use ioka.Prelude.Lists.{any}
use ioka.Prelude.Rows.{modify}
use ioka.Domain.Enums.{PaymentStatus}
use ioka.Domain.Provider.{ProviderTicket}
use ioka.Models.{
  Db, Agent, FlightSearch, Offer, Order, BalanceTransaction, IdempotencyRecord, AuditLog,
  agent_by_id, agent_by_email, search_by_id, order_by_id, owned_order,
}
use ioka.Booking.Idempotency.{recorded}
use ioka.Booking.Issue.{set_payment, start_issuing}
use ioka.Booking.Settle.{issue_with, book_again}
use ioka.Booking.Create.{same_order}
use ioka.Search.Process.{same_offer}

pub data Write (P : Offer → Type 0) (db : Db) : Db → Type 0 where
  log : (row : AuditLog) → Write P db (record db { audit_logs = db.audit_logs ++ row ∷ [] })
  add_agent :
      (agent : Agent)
      → any (agent_by_id agent.id) db.agents ≡ false
      → any (agent_by_email agent.email) db.agents ≡ false
      → Write P db (record db { agents = db.agents ++ agent ∷ [] })
  set_agent :
      (p : Agent → Bool) (f : Agent → Agent)
      → ((a : Agent) → (f a).id ≡ a.id)
      → ((a : Agent) → (f a).email ≡ a.email)
      → Write P db (record db { agents = modify p f db.agents })
  add_search :
      (search : FlightSearch)
      → any (agent_by_id search.agent_id) db.agents ≡ true
      → any (search_by_id search.id) db.searches ≡ false
      → Write P db (record db { searches = db.searches ++ search ∷ [] })
  set_search :
      (p : FlightSearch → Bool) (f : FlightSearch → FlightSearch)
      → ((s : FlightSearch) → (f s).id ≡ s.id)
      → ((s : FlightSearch) → (f s).agent_id ≡ s.agent_id)
      → Write P db (record db { searches = modify p f db.searches })
  add_offer :
      (offer : Offer)
      → P offer
      → any (search_by_id offer.search_id) db.searches ≡ true
      → any (same_offer offer) db.offers ≡ false
      → Write P db (record db { offers = db.offers ++ offer ∷ [] })
  add_order :
      (order : Order)
      → any (agent_by_id order.agent_id) db.agents ≡ true
      → any (λ o. o.id == order.offer_id) db.offers ≡ true
      → any (same_order order) db.orders ≡ false
      → order.issue_idempotency_key ≡ none
      → order.ticket_number ≡ none
      → Write P db (record db { orders = db.orders ++ order ∷ [] })
  -- the key of no other order
  mark_issuing :
      (agent_id order_id key : String)
      → any (λ o. not (o.id == order_id) && is_text key o.issue_idempotency_key) db.orders ≡ false
      → Write P db (record db {
        orders = modify (owned_order agent_id order_id) (start_issuing key) db.orders;
      })
  -- the ticket of no other order
  mark_issued :
      (agent_id order_id : String) (ticket : ProviderTicket)
      → any (λ o. not (o.id == order_id) && is_text ticket.ticket_number o.ticket_number) db.orders
        ≡ false
      → Write P db (record db {
        orders = modify (owned_order agent_id order_id) (issue_with ticket) db.orders;
      })
  mark_booked :
      (order_id : String)
      → Write P db (record db { orders = modify (order_by_id order_id) book_again db.orders })
  add_payment :
      (t : BalanceTransaction)
      → any (agent_by_id t.agent_id) db.agents ≡ true
      → any (order_by_id t.order_id) db.orders ≡ true
      → any (λ u. u.idempotency_key == t.idempotency_key) db.transactions ≡ false
      → Write P db (record db { transactions = db.transactions ++ t ∷ [] })
  set_status :
      (p : BalanceTransaction → Bool) (status : PaymentStatus)
      → Write P db (record db { transactions = modify p (set_payment status) db.transactions })
  add_record :
      (r : IdempotencyRecord)
      → any (agent_by_id r.agent_id) db.agents ≡ true
      → any (recorded r.agent_id r.scope r.key) db.idempotency_records ≡ false
      → Write P db (record db { idempotency_records = db.idempotency_records ++ r ∷ [] })

pub data Writes (P : Offer → Type 0) (db : Db) : Db → Type 0 where
  done : Writes P db db
  more : {db1 db2 : Db} → Writes P db db1 → Write P db1 db2 → Writes P db db2

-- An invariant of each write is one of a sequence.
pub Writes-keep :
    (P : Offer → Type 0) (I : Db → Type 0)
    → ((db db' : Db) → Write P db db' → I db → I db')
    → {db db' : Db} → Writes P db db'
    → I db
    → I db'
Writes-keep P I keeps done h = h
Writes-keep P I keeps (more ws w) h = keeps _ _ w (Writes-keep P I keeps ws h)
