-- ===== src/Booking/Ledger/Capture.antt =====
-- The last session of `issue_order` captures the hold and issues the order. It does not look at
-- the payment status: that a released hold is not captured rests on who else works on the order.
use mathlib.Core.Path.{subst, subst₂}
use ioka.Prelude.{
  ℕ, String, ◌≡◌, refl, sym, false, Option, none, some, ◌⊎◌, inl, inr, arith, eq_iff, eq_of_test,
  Bool-cases,
}
use ioka.Prelude.Rows.{scalar, scalar_unique, scalar-holds}
use ioka.Domain.Enums.{captured, is_issued, is_released}
use ioka.Domain.Provider.{ProviderTicket}
use ioka.Audit.{add_status_audit, add_provider_audit}
use ioka.Models.{Db, Agent, Order, BalanceTransaction, agent_by_id, owned_order, for_order}
use ioka.Booking.Issue.{set_payment, commit_or_rollback}
use ioka.Booking.Settle.{
  issue_with, ticket_taken, captured_db, capture, complete_found, complete_issue,
}
use ioka.Booking.Ledger.{IsLedger, payment_of, funds, taken-capture}
use ioka.Booking.Ledger.Touch.{
  Touches, touched-IsLedger, update-Touches, payment-set_other, payment-set_self,
}

-- The order is issued and its transaction is captured; no balance changes.
pub record Captured (agent : Agent) (order : Order) (t : BalanceTransaction)
    (ticket : ProviderTicket) (db db' : Db) : Type 0 where
  pub touches : Touches agent.id order.id (issue_with ticket order) db db'
  pub ledger : IsLedger db'
  pub same_agents : db'.agents ≡ db.agents
  pub same_funds : is_released t.status ≡ false → (b : String) → funds b db' ≡ funds b db
  pub payment : payment_of order.id db' ≡ some captured

module _ (agent : Agent) (order : Order) (t : BalanceTransaction) (key : String)
    (ticket : ProviderTicket) (duration_ms : ℕ) (db : Db) (v : IsLedger db)
    (found : scalar (owned_order agent.id order.id) db.orders ≡ some order)
    (paid : scalar (for_order order.id) db.transactions ≡ some t) where
  touches :
      Touches agent.id order.id
        (issue_with ticket order)
        db
        (captured_db key ticket duration_ms order agent db)
  unfolding captured_db add_status_audit add_provider_audit
  touches =
      update-Touches agent.id order.id order db (captured_db key ticket duration_ms order agent db)
        (issue_with ticket) v found (λ x. refl) (λ x. refl) refl
        (payment-set_other order.id captured db.transactions)

  captured_db-Captured :
      Captured agent order t ticket db (captured_db key ticket duration_ms order agent db)
  unfolding captured_db add_status_audit add_provider_audit
  captured_db-Captured =
      let match = v.matched agent.id order.id order t found paid in
      let now = payment-set_self order.id captured db.transactions t paid in
      record {
        touches = touches;
        ledger =
            touched-IsLedger touches v
              (λ u e.
                rw (scalar_unique (for_order order.id) _ u (set_payment captured t) e now) match)
              (rw now);
        same_agents = refl;
        same_funds = λ live b. rw (taken-capture b order.id db.transactions t paid live);
        payment = rw now;
      }

-- What a capture has found under the ids that it was given.
pub record Capturing (a j : String) (ticket : ProviderTicket) (db db' : Db) : Type 0 where
  pub agent : Agent
  pub order : Order
  pub transaction : BalanceTransaction
  pub agent_id : agent.id ≡ a
  pub order_id : order.id ≡ j
  pub agent_found : scalar (agent_by_id a) db.agents ≡ some agent
  pub order_found : scalar (owned_order a j) db.orders ≡ some order
  pub transaction_found : scalar (for_order j) db.transactions ≡ some transaction
  pub done : Captured agent order transaction ticket db db'

abbrev pub CapturePost : String → String → ProviderTicket → Db → Db → Type 0
CapturePost a j ticket db db' = (db' ≡ db) ⊎ Capturing a j ticket db db'

module _ (a j key : String) (ticket : ProviderTicket) (duration_ms : ℕ) (db : Db)
    (v : IsLedger db) where
  module _ (x : Order) (g : Agent) (t : BalanceTransaction)
      (ex : scalar (owned_order a j) db.orders ≡ some x)
      (eg : scalar (agent_by_id a) db.agents ≡ some g)
      (et : scalar (for_order j) db.transactions ≡ some t) where
    capturing : Capturing a j ticket db (captured_db key ticket duration_ms x g db)
    capturing =
        let ha = scalar-holds (agent_by_id a) db.agents g eg in
        let ho = scalar-holds (owned_order a j) db.orders x ex in
        let gid = eq_of_test g.id a ha in
        let id : x.id ≡ j = ground (arith, eq_iff x.id j) in
        record {
          agent = g;
          order = x;
          transaction = t;
          agent_id = gid;
          order_id = id;
          agent_found = eg;
          order_found = ex;
          transaction_found = et;
          done =
              captured_db-Captured g x t key ticket duration_ms db v
                (subst₂ (λ b k. scalar (owned_order b k) db.orders ≡ some x) (sym gid) (sym id) ex)
                (subst (λ k. scalar (for_order k) db.transactions ≡ some t) (sym id) et);
        }

  found_post :
      (eo : Option Order) (eg : Option Agent) (et : Option BalanceTransaction)
      → scalar (owned_order a j) db.orders ≡ eo
      → scalar (agent_by_id a) db.agents ≡ eg
      → scalar (for_order j) db.transactions ≡ et
      → CapturePost a j ticket db
          (commit_or_rollback db (complete_found eo eg et key ticket duration_ms db)).1
  unfolding complete_found capture
  found_post none eg et fo fg ft = inl refl
  found_post (some x) none et fo fg ft = inl refl
  found_post (some x) (some g) none fo fg ft = inl refl
  found_post (some x) (some g) (some t) fo fg ft = elim (Bool-cases (is_issued x.status)) [
    | inl done ↦ inl (rw done)
    | inr open_order ↦ elim (Bool-cases (ticket_taken ticket x db)) [
      | inl clash ↦ inl (rw (open_order, clash))
      | inr free ↦ inr (rw (open_order, free) (capturing x g t fo fg ft))
    ]
  ]

  pub complete_issue-Post :
      CapturePost a j ticket db (complete_issue a j key ticket duration_ms db).1
  unfolding complete_issue
  complete_issue-Post = found_post _ _ _ refl refl refl

  post-IsLedger : (db' : Db) → CapturePost a j ticket db db' → IsLedger db'
  post-IsLedger db' (inl same) = subst IsLedger (sym same) v
  post-IsLedger db' (inr r) = r.done.ledger

  pub complete_issue-IsLedger : IsLedger (complete_issue a j key ticket duration_ms db).1
  complete_issue-IsLedger = post-IsLedger _ complete_issue-Post
