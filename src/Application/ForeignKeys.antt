-- ===== src/Application/ForeignKeys.antt =====
-- The foreign keys of app/infrastructure/models.py. The sessions of the model do not check them:
-- here each write keeps them, so the database never refuses one for them.
use ioka.Prelude.{refl}
use ioka.Prelude.Keys.{
  Refers, Refers-add_child, Refers-add_parent, Refers-set_child, Refers-set_parent,
}
use ioka.Models.{Db, Offer}
use ioka.Booking.Issue.{set_payment, start_issuing}
use ioka.Booking.Settle.{issue_with, book_again}
use ioka.Application.Writes.{Write}

pub record HasForeignKeys (db : Db) : Type 0 where
  -- FlightSearch.agent_id
  pub search_agents : Refers (λ s. s.agent_id) (λ a. a.id) db.searches db.agents
  -- Offer.search_id
  pub offer_searches : Refers (λ o. o.search_id) (λ s. s.id) db.offers db.searches
  -- Order.agent_id and Order.offer_id
  pub order_agents : Refers (λ o. o.agent_id) (λ a. a.id) db.orders db.agents
  pub order_offers : Refers (λ o. o.offer_id) (λ o. o.id) db.orders db.offers
  -- BalanceTransaction.agent_id and BalanceTransaction.order_id
  pub payment_agents : Refers (λ t. t.agent_id) (λ a. a.id) db.transactions db.agents
  pub payment_orders : Refers (λ t. t.order_id) (λ o. o.id) db.transactions db.orders
  -- IdempotencyRecord.agent_id
  pub record_agents : Refers (λ r. r.agent_id) (λ a. a.id) db.idempotency_records db.agents

module _ (P : Offer → Type 0) (db : Db) where
  search_agents_kept :
      (db' : Db)
      → Write P db db'
      → Refers (λ s. s.agent_id) (λ a. a.id) db.searches db.agents
      → Refers (λ s. s.agent_id) (λ a. a.id) db'.searches db'.agents
  search_agents_kept db' (Write.add_agent agent x y) h =
      Refers-add_parent (λ s. s.agent_id) (λ a. a.id) db.searches agent db.agents h
  search_agents_kept db' (Write.set_agent p f ids emails) h =
      Refers-set_parent (λ s. s.agent_id) (λ a. a.id) p f db.searches db.agents ids h
  search_agents_kept db' (Write.add_search search stored free) h =
      Refers-add_child (λ s. s.agent_id) (λ a. a.id) search db.searches db.agents stored h
  search_agents_kept db' (Write.set_search p f ids agents) h =
      Refers-set_child (λ s. s.agent_id) (λ a. a.id) p f db.searches db.agents agents h
  search_agents_kept db' other h = h

  offer_searches_kept :
      (db' : Db)
      → Write P db db'
      → Refers (λ o. o.search_id) (λ s. s.id) db.offers db.searches
      → Refers (λ o. o.search_id) (λ s. s.id) db'.offers db'.searches
  offer_searches_kept db' (Write.add_search search stored free) h =
      Refers-add_parent (λ o. o.search_id) (λ s. s.id) db.offers search db.searches h
  offer_searches_kept db' (Write.set_search p f ids agents) h =
      Refers-set_parent (λ o. o.search_id) (λ s. s.id) p f db.offers db.searches ids h
  offer_searches_kept db' (Write.add_offer offer allowed stored free) h =
      Refers-add_child (λ o. o.search_id) (λ s. s.id) offer db.offers db.searches stored h
  offer_searches_kept db' other h = h

  order_agents_kept :
      (db' : Db)
      → Write P db db'
      → Refers (λ o. o.agent_id) (λ a. a.id) db.orders db.agents
      → Refers (λ o. o.agent_id) (λ a. a.id) db'.orders db'.agents
  order_agents_kept db' (Write.add_agent agent x y) h =
      Refers-add_parent (λ o. o.agent_id) (λ a. a.id) db.orders agent db.agents h
  order_agents_kept db' (Write.set_agent p f ids emails) h =
      Refers-set_parent (λ o. o.agent_id) (λ a. a.id) p f db.orders db.agents ids h
  order_agents_kept db' (Write.add_order order stored offered free no_key no_ticket) h =
      Refers-add_child (λ o. o.agent_id) (λ a. a.id) order db.orders db.agents stored h
  order_agents_kept db' (Write.mark_issuing a j key free) h =
      Refers-set_child (λ o. o.agent_id) (λ a. a.id) _ (start_issuing key) db.orders db.agents
        (λ x. refl) h
  order_agents_kept db' (Write.mark_issued a j ticket free) h =
      Refers-set_child (λ o. o.agent_id) (λ a. a.id) _ (issue_with ticket) db.orders db.agents
        (λ x. refl) h
  order_agents_kept db' (Write.mark_booked j) h =
      Refers-set_child (λ o. o.agent_id) (λ a. a.id) _ book_again db.orders db.agents (λ x. refl) h
  order_agents_kept db' other h = h

  order_offers_kept :
      (db' : Db)
      → Write P db db'
      → Refers (λ o. o.offer_id) (λ o. o.id) db.orders db.offers
      → Refers (λ o. o.offer_id) (λ o. o.id) db'.orders db'.offers
  order_offers_kept db' (Write.add_offer offer allowed stored free) h =
      Refers-add_parent (λ o. o.offer_id) (λ o. o.id) db.orders offer db.offers h
  order_offers_kept db' (Write.add_order order stored offered free no_key no_ticket) h =
      Refers-add_child (λ o. o.offer_id) (λ o. o.id) order db.orders db.offers offered h
  order_offers_kept db' (Write.mark_issuing a j key free) h =
      Refers-set_child (λ o. o.offer_id) (λ o. o.id) _ (start_issuing key) db.orders db.offers
        (λ x. refl) h
  order_offers_kept db' (Write.mark_issued a j ticket free) h =
      Refers-set_child (λ o. o.offer_id) (λ o. o.id) _ (issue_with ticket) db.orders db.offers
        (λ x. refl) h
  order_offers_kept db' (Write.mark_booked j) h =
      Refers-set_child (λ o. o.offer_id) (λ o. o.id) _ book_again db.orders db.offers (λ x. refl) h
  order_offers_kept db' other h = h

  payment_agents_kept :
      (db' : Db)
      → Write P db db'
      → Refers (λ t. t.agent_id) (λ a. a.id) db.transactions db.agents
      → Refers (λ t. t.agent_id) (λ a. a.id) db'.transactions db'.agents
  payment_agents_kept db' (Write.add_agent agent x y) h =
      Refers-add_parent (λ t. t.agent_id) (λ a. a.id) db.transactions agent db.agents h
  payment_agents_kept db' (Write.set_agent p f ids emails) h =
      Refers-set_parent (λ t. t.agent_id) (λ a. a.id) p f db.transactions db.agents ids h
  payment_agents_kept db' (Write.add_payment t stored ordered free) h =
      Refers-add_child (λ t. t.agent_id) (λ a. a.id) t db.transactions db.agents stored h
  payment_agents_kept db' (Write.set_status p status) h =
      Refers-set_child (λ t. t.agent_id) (λ a. a.id) p (set_payment status) db.transactions
        db.agents (λ x. refl) h
  payment_agents_kept db' other h = h

  payment_orders_kept :
      (db' : Db)
      → Write P db db'
      → Refers (λ t. t.order_id) (λ o. o.id) db.transactions db.orders
      → Refers (λ t. t.order_id) (λ o. o.id) db'.transactions db'.orders
  payment_orders_kept db' (Write.add_order order stored offered free no_key no_ticket) h =
      Refers-add_parent (λ t. t.order_id) (λ o. o.id) db.transactions order db.orders h
  payment_orders_kept db' (Write.mark_issuing a j key free) h =
      Refers-set_parent (λ t. t.order_id) (λ o. o.id) _ (start_issuing key) db.transactions
        db.orders (λ x. refl) h
  payment_orders_kept db' (Write.mark_issued a j ticket free) h =
      Refers-set_parent (λ t. t.order_id) (λ o. o.id) _ (issue_with ticket) db.transactions
        db.orders (λ x. refl) h
  payment_orders_kept db' (Write.mark_booked j) h =
      Refers-set_parent (λ t. t.order_id) (λ o. o.id) _ book_again db.transactions db.orders
        (λ x. refl) h
  payment_orders_kept db' (Write.add_payment t stored ordered free) h =
      Refers-add_child (λ t. t.order_id) (λ o. o.id) t db.transactions db.orders ordered h
  payment_orders_kept db' (Write.set_status p status) h =
      Refers-set_child (λ t. t.order_id) (λ o. o.id) p (set_payment status) db.transactions
        db.orders (λ x. refl) h
  payment_orders_kept db' other h = h

  record_agents_kept :
      (db' : Db)
      → Write P db db'
      → Refers (λ r. r.agent_id) (λ a. a.id) db.idempotency_records db.agents
      → Refers (λ r. r.agent_id) (λ a. a.id) db'.idempotency_records db'.agents
  record_agents_kept db' (Write.add_agent agent x y) h =
      Refers-add_parent (λ r. r.agent_id) (λ a. a.id) db.idempotency_records agent db.agents h
  record_agents_kept db' (Write.set_agent p f ids emails) h =
      Refers-set_parent (λ r. r.agent_id) (λ a. a.id) p f db.idempotency_records db.agents ids h
  record_agents_kept db' (Write.add_record r stored free) h =
      Refers-add_child (λ r. r.agent_id) (λ a. a.id) r db.idempotency_records db.agents stored h
  record_agents_kept db' other h = h

-- Each write keeps every foreign key.
pub write-HasForeignKeys :
    (P : Offer → Type 0) (db db' : Db) → Write P db db' → HasForeignKeys db → HasForeignKeys db'
write-HasForeignKeys P db db' w v = record {
  search_agents = search_agents_kept P db db' w v.search_agents;
  offer_searches = offer_searches_kept P db db' w v.offer_searches;
  order_agents = order_agents_kept P db db' w v.order_agents;
  order_offers = order_offers_kept P db db' w v.order_offers;
  payment_agents = payment_agents_kept P db db' w v.payment_agents;
  payment_orders = payment_orders_kept P db db' w v.payment_orders;
  record_agents = record_agents_kept P db db' w v.record_agents;
}
