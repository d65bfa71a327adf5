-- ===== src/Application/Uniqueness.antt =====
-- The primary keys and the unique constraints of app/infrastructure/models.py. A session that sends
-- an INSERT or UPDATE tests for a clash first, as the database does; here the tests are shown to be
-- enough. `NULL` clashes with nothing.
use ioka.Prelude.{◌≡◌, refl, String, Bool, true, false, none, [], ◌∷◌, ◌==◌, ◌&&◌, arith, List}
use ioka.Prelude.Lists.{any}
use ioka.Prelude.Keys.{same_text, NoClash, NoClash-append, NoClash-modify, NoClash-set}
use ioka.Models.{Db, Offer, Order, IdempotencyRecord, owned_order}
use ioka.Booking.Issue.{set_payment, start_issuing}
use ioka.Booking.Settle.{issue_with, book_again}
use ioka.Booking.Create.{same_order}
use ioka.Search.Process.{same_offer}
use ioka.Application.Writes.{Write}

abbrev pub same_key : Order → Order → Bool
same_key x y = same_text x.issue_idempotency_key y.issue_idempotency_key

abbrev pub same_ticket : Order → Order → Bool
same_ticket x y = same_text x.ticket_number y.ticket_number

-- `uq_provider_offer`
abbrev pub same_provider_offer : Offer → Offer → Bool
same_provider_offer x y = x.provider == y.provider && x.provider_offer_id == y.provider_offer_id

-- `uq_idempotency_scope_key`
abbrev pub same_scope_key : IdempotencyRecord → IdempotencyRecord → Bool
same_scope_key x y = x.agent_id == y.agent_id && (x.scope == y.scope && x.key == y.key)

pub record IsUnique (db : Db) : Type 0 where
  pub agent_ids : NoClash (λ x y. x.id == y.id) db.agents
  pub emails : NoClash (λ x y. x.email == y.email) db.agents
  pub search_ids : NoClash (λ x y. x.id == y.id) db.searches
  pub offer_ids : NoClash (λ x y. x.id == y.id) db.offers
  pub provider_offers : NoClash same_provider_offer db.offers
  pub order_ids : NoClash (λ x y. x.id == y.id) db.orders
  pub references : NoClash (λ x y. x.booking_reference == y.booking_reference) db.orders
  pub issue_keys : NoClash same_key db.orders
  pub tickets : NoClash same_ticket db.orders
  pub payment_keys : NoClash (λ x y. x.idempotency_key == y.idempotency_key) db.transactions
  pub scope_keys : NoClash same_scope_key db.idempotency_records

-- A row that the test lets through clashes with none under a finer condition.
no_offer_clash :
    (offer : Offer) (rows : List Offer)
    → any (same_offer offer) rows ≡ false
    → (any (λ x. x.id == offer.id) rows ≡ false)
      × (any (λ x. same_provider_offer x offer) rows ≡ false)
no_offer_clash offer [] h = (refl, refl)
no_offer_clash offer (x ∷ xs) h = ground (arith, no_offer_clash offer xs)

no_order_clash :
    (order : Order) (rows : List Order)
    → any (same_order order) rows ≡ false
    → (any (λ x. x.id == order.id) rows ≡ false)
      × (any (λ x. x.booking_reference == order.booking_reference) rows ≡ false)
no_order_clash order [] h = (refl, refl)
no_order_clash order (x ∷ xs) h = ground (arith, no_order_clash order xs)

no_null_key :
    (order : Order) (rows : List Order)
    → order.issue_idempotency_key ≡ none
    → any (λ x. same_key x order) rows ≡ false
no_null_key order [] h = refl
no_null_key order (x ∷ xs) h = ground (arith, no_null_key order xs h)

no_null_ticket :
    (order : Order) (rows : List Order)
    → order.ticket_number ≡ none
    → any (λ x. same_ticket x order) rows ≡ false
no_null_ticket order [] h = refl
no_null_ticket order (x ∷ xs) h = ground (arith, no_null_ticket order xs h)

owned-id : (a j : String) (o : Order) → owned_order a j o ≡ true → (o.id == j) ≡ true
owned-id a j o h = ground arith

module _ (P : Offer → Type 0) (db : Db) (v : IsUnique db) where
  agents_kept :
      (db' : Db)
      → Write P db db'
      → NoClash (λ x y. x.id == y.id) db'.agents × NoClash (λ x y. x.email == y.email) db'.agents
  agents_kept db' (Write.add_agent agent no_id no_email) = (
    NoClash-append (λ x y. x.id == y.id) agent db.agents no_id v.agent_ids,
    NoClash-append (λ x y. x.email == y.email) agent db.agents no_email v.emails,
  )
  agents_kept db' (Write.set_agent p f ids emails) = (
    NoClash-modify (λ x y. x.id == y.id) p f db.agents (λ x y. rw (ids x)) (λ x y. rw (ids y))
        v.agent_ids,
    NoClash-modify (λ x y. x.email == y.email) p f db.agents (λ x y. rw (emails x))
        (λ x y. rw (emails y)) v.emails,
  )
  agents_kept db' other = (v.agent_ids, v.emails)

  searches_kept : (db' : Db) → Write P db db' → NoClash (λ x y. x.id == y.id) db'.searches
  searches_kept db' (Write.add_search search stored free) =
      NoClash-append (λ x y. x.id == y.id) search db.searches free v.search_ids
  searches_kept db' (Write.set_search p f ids agents) =
      NoClash-modify (λ x y. x.id == y.id) p f db.searches (λ x y. rw (ids x)) (λ x y. rw (ids y))
        v.search_ids
  searches_kept db' other = v.search_ids

  offers_kept :
      (db' : Db)
      → Write P db db'
      → NoClash (λ x y. x.id == y.id) db'.offers × NoClash same_provider_offer db'.offers
  offers_kept db' (Write.add_offer offer allowed stored free) =
      let (no_id, no_offer) = no_offer_clash offer db.offers free in
      (
        NoClash-append (λ x y. x.id == y.id) offer db.offers no_id v.offer_ids,
        NoClash-append same_provider_offer offer db.offers no_offer v.provider_offers,
      )
  offers_kept db' other = (v.offer_ids, v.provider_offers)

  order_ids_kept :
      (db' : Db)
      → Write P db db'
      → NoClash (λ x y. x.id == y.id) db'.orders
        × NoClash (λ x y. x.booking_reference == y.booking_reference) db'.orders
  order_ids_kept db' (Write.add_order order stored offered free no_key no_ticket) =
      let (no_id, no_reference) = no_order_clash order db.orders free in
      (
        NoClash-append (λ x y. x.id == y.id) order db.orders no_id v.order_ids,
        NoClash-append (λ x y. x.booking_reference == y.booking_reference) order db.orders
            no_reference v.references,
      )
  order_ids_kept db' (Write.mark_issuing a j key free) = (
    NoClash-modify _ _ (start_issuing key) db.orders (λ x y. refl) (λ x y. refl) v.order_ids,
    NoClash-modify _ _ (start_issuing key) db.orders (λ x y. refl) (λ x y. refl) v.references,
  )
  order_ids_kept db' (Write.mark_issued a j ticket free) = (
    NoClash-modify _ _ (issue_with ticket) db.orders (λ x y. refl) (λ x y. refl) v.order_ids,
    NoClash-modify _ _ (issue_with ticket) db.orders (λ x y. refl) (λ x y. refl) v.references,
  )
  order_ids_kept db' (Write.mark_booked j) = (
    NoClash-modify _ _ book_again db.orders (λ x y. refl) (λ x y. refl) v.order_ids,
    NoClash-modify _ _ book_again db.orders (λ x y. refl) (λ x y. refl) v.references,
  )
  order_ids_kept db' other = (v.order_ids, v.references)

  issue_keys_kept : (db' : Db) → Write P db db' → NoClash same_key db'.orders
  issue_keys_kept db' (Write.add_order order stored offered free no_key no_ticket) =
      NoClash-append same_key order db.orders (no_null_key order db.orders no_key) v.issue_keys
  issue_keys_kept db' (Write.mark_issuing a j key free) =
      NoClash-set (λ o. o.id) (λ o. o.issue_idempotency_key) (owned_order a j) (start_issuing key) j
        key (owned-id a j) (λ x. refl) db.orders free v.order_ids v.issue_keys
  issue_keys_kept db' (Write.mark_issued a j ticket free) =
      NoClash-modify same_key _ (issue_with ticket) db.orders (λ x y. refl) (λ x y. refl)
        v.issue_keys
  issue_keys_kept db' (Write.mark_booked j) =
      NoClash-modify same_key _ book_again db.orders (λ x y. refl) (λ x y. refl) v.issue_keys
  issue_keys_kept db' other = v.issue_keys

  tickets_kept : (db' : Db) → Write P db db' → NoClash same_ticket db'.orders
  tickets_kept db' (Write.add_order order stored offered free no_key no_ticket) =
      NoClash-append same_ticket order db.orders (no_null_ticket order db.orders no_ticket)
        v.tickets
  tickets_kept db' (Write.mark_issuing a j key free) =
      NoClash-modify same_ticket _ (start_issuing key) db.orders (λ x y. refl) (λ x y. refl)
        v.tickets
  tickets_kept db' (Write.mark_issued a j ticket free) =
      NoClash-set (λ o. o.id) (λ o. o.ticket_number) (owned_order a j) (issue_with ticket) j
        ticket.ticket_number (owned-id a j) (λ x. refl) db.orders free v.order_ids v.tickets
  tickets_kept db' (Write.mark_booked j) =
      NoClash-modify same_ticket _ book_again db.orders (λ x y. refl) (λ x y. refl) v.tickets
  tickets_kept db' other = v.tickets

  payment_keys_kept :
      (db' : Db)
      → Write P db db'
      → NoClash (λ x y. x.idempotency_key == y.idempotency_key) db'.transactions
  payment_keys_kept db' (Write.add_payment t stored ordered free) =
      NoClash-append (λ x y. x.idempotency_key == y.idempotency_key) t db.transactions free
        v.payment_keys
  payment_keys_kept db' (Write.set_status p status) =
      NoClash-modify (λ x y. x.idempotency_key == y.idempotency_key) p (set_payment status)
        db.transactions (λ x y. refl) (λ x y. refl) v.payment_keys
  payment_keys_kept db' other = v.payment_keys

  scope_keys_kept : (db' : Db) → Write P db db' → NoClash same_scope_key db'.idempotency_records
  scope_keys_kept db' (Write.add_record r stored free) =
      NoClash-append same_scope_key r db.idempotency_records free v.scope_keys
  scope_keys_kept db' other = v.scope_keys

-- Each write keeps every primary key and unique constraint.
pub write-IsUnique :
    (P : Offer → Type 0) (db db' : Db) → Write P db db' → IsUnique db → IsUnique db'
write-IsUnique P db db' w v = record {
  agent_ids = (agents_kept P db v db' w).0;
  emails = (agents_kept P db v db' w).1;
  search_ids = searches_kept P db v db' w;
  offer_ids = (offers_kept P db v db' w).0;
  provider_offers = (offers_kept P db v db' w).1;
  order_ids = (order_ids_kept P db v db' w).0;
  references = (order_ids_kept P db v db' w).1;
  issue_keys = issue_keys_kept P db v db' w;
  tickets = tickets_kept P db v db' w;
  payment_keys = payment_keys_kept P db v db' w;
  scope_keys = scope_keys_kept P db v db' w;
}
