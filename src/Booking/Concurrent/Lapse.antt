-- ===== src/Booking/Concurrent/Lapse.antt =====
-- What the last session of an issue does when a concurrent request has released the hold.
use mathlib.Core.Path.{subst}
use ioka.Prelude.{
  ℕ, String, ◌≡◌, refl, sym, ap, ◌∙◌, true, false, some, ◌==◌, arith, eq_iff, if◌then◌else◌,
}
use ioka.Prelude.Int.{pos, ◌+ℤ◌}
use ioka.Prelude.Rows.{scalar, modify, scalar-holds, sum_by-modify}
use ioka.Domain.Enums.{captured, released, is_issued, is_released}
use ioka.Domain.Provider.{ProviderTicket}
use ioka.Exceptions.{Result, ok}
use ioka.Audit.{add_status_audit, add_provider_audit}
use ioka.Models.{Db, Agent, Order, BalanceTransaction, agent_by_id, owned_order, for_order}
use ioka.Booking.Issue.{set_payment}
use ioka.Booking.Settle.{
  Issued, issue_with, ticket_taken, captured_db, capture, complete_found, complete_issue,
}
use ioka.Booking.Ledger.{taken, taken_from, taken_from-live, taken_from-gone, drop_none}

-- Capturing a released transaction takes its amount out of nowhere.
taken-revive :
    (a k : String) (t : BalanceTransaction) (db : Db)
    → scalar (for_order k) db.transactions ≡ some t
    → is_released t.status ≡ true
    → taken a (modify (for_order k) (set_payment captured) db.transactions)
      ≡ taken a db.transactions +ℤ (if t.agent_id == a then t.amount else pos 0)
taken-revive a k t db found gone =
    drop_none _ _ _ _
      (sum_by-modify (taken_from a) (for_order k) (set_payment captured) db.transactions t found)
      (taken_from-gone a t gone)
    ∙ ap (λ x. taken a db.transactions +ℤ x) (taken_from-live a (set_payment captured t) refl)

-- The answer of an issue that captured a transaction which was released: the issued order, no
-- balance changed, and the amount now counted as taken.
abbrev pub Unpaid :
    ProviderTicket → Order → Agent → BalanceTransaction → Db → Result Issued × Db → Type 0
Unpaid ticket order agent t db (r, db') =
    (r ≡ ok (issue_with ticket order, agent, captured))
    × (db'.agents ≡ db.agents)
    × ((b : String)
        → taken b db'.transactions
          ≡ taken b db.transactions +ℤ (if t.agent_id == b then t.amount else pos 0))

module _ (a j key : String) (ticket : ProviderTicket) (n : ℕ) (db : Db) (order : Order)
    (agent : Agent) (t : BalanceTransaction) (eo : scalar (owned_order a j) db.orders ≡ some order)
    (ea : scalar (agent_by_id a) db.agents ≡ some agent)
    (et : scalar (for_order j) db.transactions ≡ some t)
    (open_order : is_issued order.status ≡ false) (free : ticket_taken ticket order db ≡ false)
    (gone : t.status ≡ released) where
  completed :
      complete_issue a j key ticket n db
      ≡ ((ok (issue_with ticket order, agent, captured)), captured_db key ticket n order agent db)
  unfolding complete_issue complete_found capture
  completed = rw (eo, ea, et, open_order, free)

  same_order_id : order.id ≡ j
  same_order_id =
      let h = scalar-holds (owned_order a j) db.orders order eo in ground (arith, eq_iff order.id j)

  captured_db-Unpaid :
      Unpaid ticket order agent t db
        (ok (issue_with ticket order, agent, captured), captured_db key ticket n order agent db)
  unfolding captured_db add_status_audit add_provider_audit
  captured_db-Unpaid = (
    refl,
    refl,
    λ b.
        subst
          (λ k.
            taken b (modify (for_order k) (set_payment captured) db.transactions)
            ≡ taken b db.transactions +ℤ (if t.agent_id == b then t.amount else pos 0))
          (sym same_order_id) (taken-revive b j t db et (rw gone)),
  )

  -- If the hold of an order was released while the provider still worked on another request for it,
  -- and the provider then returns a ticket that no other order has, the order is issued and reported
  -- as CAPTURED although the money is back on the balance: no balance changes, and what counts as
  -- taken from the transaction's agent grows by the amount that nobody paid.
  pub capture_of_released : Unpaid ticket order agent t db (complete_issue a j key ticket n db)
  capture_of_released = subst (Unpaid ticket order agent t db) (sym completed) captured_db-Unpaid
