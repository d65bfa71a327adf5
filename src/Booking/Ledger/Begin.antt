-- ===== src/Booking/Ledger/Begin.antt =====
-- The first session of `issue_order` on its locked rows, and the ledger.
use mathlib.Core.Path.{subst}
use ioka.Prelude.{
  String, ◌≡◌, ◌≢◌, refl, sym, ap, ◌∙◌, true, false, Option, none, some, List, inl, inr, arith,
  Bool-cases,
}
use ioka.Prelude.Int.{ltb_ℤ}
use ioka.Prelude.Rows.{scalar, scalar_unique, modify}
use ioka.Domain.Enums.{OrderStatus, PaymentStatus, held, is_issued, is_released}
use ioka.Audit.{add_status_audit}
use ioka.Exceptions.{ok, integrity_error, ok-injective, raise_if-ok, bind-ok}
use ioka.Models.{Db, Agent, Order, BalanceTransaction, owned_order, for_order}
use ioka.Booking.Issue.{
  Began, started, start_issuing, hold_funds, mark_issuing, begin_locked, set_payment, new_hold,
  add_hold, hold_again, hold_key_taken, short_of_funds, short_again, key_conflict, other_key,
  issue_key_taken, issuing_marked,
}
use ioka.Booking.Ledger.{IsLedger, agrees, payment_of, funds, funds-debit, taken-append, taken-hold}
use ioka.Booking.Ledger.Touch.{
  Touches, touched-IsLedger, update-Touches, payment-set_other, payment-set_self, payment-add_other,
  payment-add_self,
}

-- `db'` holds the order's amount for the agent; before the session marks the order.
record Holds (agent : Agent) (order : Order) (db db' : Db) : Type 0 where
  same_orders : db'.orders ≡ db.orders
  same_funds : (a : String) → funds a db' ≡ funds a db
  hold : BalanceTransaction
  found : scalar (for_order order.id) db'.transactions ≡ some hold
  of_agent : hold.agent_id ≡ agent.id
  of_amount : hold.amount ≡ order.amount
  is_hold : hold.status ≡ held
  others :
      (k : String)
      → k ≢ order.id
      → scalar (for_order k) db'.transactions ≡ scalar (for_order k) db.transactions

module _ (agent : Agent) (order : Order) (key : String) (db : Db) where
  add_hold-Holds :
      scalar (for_order order.id) db.transactions ≡ none
      → Holds agent order db (add_hold agent order key db)
  unfolding add_hold
  add_hold-Holds fresh = record {
    same_orders = refl;
    same_funds = λ a.
        funds-debit a agent.id order.amount db (add_hold agent order key db) refl
          (taken-append a (new_hold agent.id key order) db.transactions refl);
    hold = new_hold agent.id key order;
    found = payment-add_self order.id db.transactions (new_hold agent.id key order) refl fresh;
    of_agent = refl;
    of_amount = refl;
    is_hold = refl;
    others = payment-add_other order.id db.transactions (new_hold agent.id key order) refl;
  }

  hold_again-Holds :
      (t : BalanceTransaction)
      → scalar (for_order order.id) db.transactions ≡ some t
      → t.agent_id ≡ agent.id
      → t.amount ≡ order.amount
      → is_released t.status ≡ true
      → Holds agent order db (hold_again agent order db)
  unfolding hold_again
  hold_again-Holds t found of_agent of_amount gone = record {
    same_orders = refl;
    same_funds = λ a.
        funds-debit a agent.id order.amount db (hold_again agent order db) refl
          (rw (← of_agent, ← of_amount) (taken-hold a order.id db.transactions t found gone));
    hold = set_payment held t;
    found = payment-set_self order.id held db.transactions t found;
    of_agent = of_agent;
    of_amount = of_amount;
    is_hold = refl;
    others = payment-set_other order.id held db.transactions;
  }

  hold_funds-Holds :
      (tx : Option BalanceTransaction) (db' : Db)
      → scalar (for_order order.id) db.transactions ≡ tx
      → ((t : BalanceTransaction)
          → tx ≡ some t
          → (t.agent_id ≡ agent.id) × (t.amount ≡ order.amount))
      → ((t : BalanceTransaction) → tx ≡ some t → is_released t.status ≡ false → t.status ≡ held)
      → hold_funds agent order key tx db ≡ ok db'
      → Holds agent order db db'
  unfolding hold_funds
  hold_funds-Holds none db' found matched live h =
      subst (Holds agent order db)
        (ok-injective _ _
          (raise_if-ok (hold_key_taken key db) integrity_error _
            (raise_if-ok (ltb_ℤ agent.balance order.amount) (short_of_funds agent order) _ h).1).1)
        (add_hold-Holds found)
  hold_funds-Holds (some t) db' found matched live h = elim (Bool-cases (is_released t.status)) [
    | inl gone ↦
        subst (Holds agent order db)
          (ok-injective _ _
            (raise_if-ok (ltb_ℤ agent.balance order.amount) short_again _ (rw gone at h)).1)
          (hold_again-Holds t found (matched t refl).0 (matched t refl).1 gone)
    | inr here ↦ subst (Holds agent order db) (ok-injective _ _ (rw here at h)) (record {
      same_orders = refl;
      same_funds = λ a. refl;
      hold = t;
      found = found;
      of_agent = (matched t refl).0;
      of_amount = (matched t refl).1;
      is_hold = live t refl here;
      others = λ k other. refl;
    })
  ]

-- The session went through: the order is ISSUING with its money held.
pub record Started (agent : Agent) (order : Order) (key : String) (db db' : Db) : Type 0 where
  pub touches : Touches agent.id order.id (start_issuing key order) db db'
  pub ledger : IsLedger db'
  pub same_funds : (a : String) → funds a db' ≡ funds a db
  pub payment : payment_of order.id db' ≡ some held

module _ (agent : Agent) (order : Order) (key : String) (db : Db) (v : IsLedger db)
    (found : scalar (owned_order agent.id order.id) db.orders ≡ some order) where
  marked-Started :
      (db' : Db)
      → Holds agent order db db'
      → Started agent order key db (issuing_marked agent order key db')
  unfolding issuing_marked add_status_audit
  marked-Started db' h = record {
    touches = touches;
    ledger =
        touched-IsLedger touches v
          (λ t e.
            let same = scalar_unique (for_order order.id) db'.transactions t h.hold e h.found in
            rw same (h.of_agent, h.of_amount))
          (rw (h.found, h.is_hold));
    same_funds = h.same_funds;
    payment = rw (h.found, h.is_hold);
  }
    where
      touches :
          Touches agent.id order.id
            (start_issuing key order)
            db
            (issuing_marked agent order key db')
      touches =
          update-Touches agent.id order.id order db (issuing_marked agent order key db')
            (start_issuing key) v found (λ x. refl) (λ x. refl)
            (ap (λ (os : List Order). modify (owned_order agent.id order.id) (start_issuing key) os)
              h.same_orders)
            h.others

  -- an order that is not issued has no captured transaction
  payment_is_hold :
      (t : BalanceTransaction)
      → is_issued order.status ≡ false
      → scalar (for_order order.id) db.transactions ≡ some t
      → is_released t.status ≡ false
      → t.status ≡ held
  payment_is_hold t open_order e here =
      held_or_released order.status t.status open_order
        (rw e at (v.agreed agent.id order.id order found)) here
    where
      held_or_released :
          (o : OrderStatus) (p : PaymentStatus)
          → is_issued o ≡ false
          → agrees o (some p) ≡ true
          → is_released p ≡ false
          → p ≡ held
      held_or_released o p a b c = ground arith

  pub begin_locked-Started :
      (tx : Option BalanceTransaction) (b : Began) (db' : Db)
      → scalar (for_order order.id) db.transactions ≡ tx
      → is_issued order.status ≡ false
      → begin_locked agent order key tx db ≡ ok (b, db')
      → Started agent order key db db' × (b ≡ started order.provider_booking_id)
  unfolding begin_locked
  begin_locked-Started tx b db' e open_order h =
      let (_, body) = raise_if-ok (other_key key order) key_conflict _ (rw open_order at h) in
      let (db1, holding, rest) =
        bind-ok (hold_funds agent order key tx db) (mark_issuing agent order key) body in
      let last =
        ok-injective _ _ (raise_if-ok (issue_key_taken key order db1) integrity_error _ rest).1 in
      let holds =
        hold_funds-Holds agent order key db tx db1 e
          (λ t et. v.matched agent.id order.id order t found (e ∙ et))
          (λ t et. payment_is_hold t open_order (e ∙ et)) holding in
      (
        subst (Started agent order key db) (ap (λ (r : Began × Db). r.1) last)
            (marked-Started db1 holds),
        sym (ap (λ (r : Began × Db). r.0) last),
      )
