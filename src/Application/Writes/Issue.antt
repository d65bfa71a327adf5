-- ===== src/Application/Writes/Issue.antt =====
-- The writes of the first session of `issue_order`.
use ioka.Prelude.{◌≡◌, refl, ap, String, true, Option, none, some, inl, inr, Bool-cases}
use mathlib.Core.Path.{subst}
use ioka.Prelude.Lists.{any}
use ioka.Prelude.Int.{ltb_ℤ}
use ioka.Prelude.Rows.{scalar}
use ioka.Prelude.Keys.{any-of_scalar}
use ioka.Domain.Enums.{held, is_issued, is_released}
use ioka.Exceptions.{
  Result, ok, err, integrity_error, error, not_found, ok-injective, raise_if-ok, or_raise-ok,
  bind-ok,
}
use ioka.Audit.{add_status_audit}
use ioka.Models.{
  Db, Offer, Agent, Order, BalanceTransaction, agent_by_id, order_by_id, owned_order, for_order,
}
use ioka.Booking.Issue.{
  Began, debit, new_hold, short_of_funds, short_again, add_hold, hold_again, hold_key_taken,
  hold_funds, issue_key_taken, issuing_marked, mark_issuing, key_conflict, other_key, begin_locked,
  begin_found, begin_issue, commit_or_rollback,
}
use ioka.Application.Writes.{Write, Writes, done, more}

module _ (P : Offer → Type 0) where
  module _ (agent : Agent) (order : Order) (key : String) (db : Db)
      (is_agent : any (agent_by_id agent.id) db.agents ≡ true)
      (is_order : any (order_by_id order.id) db.orders ≡ true) where
    hold_funds-Writes :
        (tx : Option BalanceTransaction) (db' : Db)
        → hold_funds agent order key tx db ≡ ok db'
        → Writes P db db'
    unfolding hold_funds add_hold hold_again new_hold
    hold_funds-Writes none db' h =
        let (enough, a) =
          raise_if-ok (ltb_ℤ agent.balance order.amount) (short_of_funds agent order) _ h in
        let (free, b) =
          raise_if-ok (hold_key_taken key db) integrity_error (ok (add_hold agent order key db))
            a in
        subst (Writes P db) (ok-injective _ _ b) (
          more (more done (Write.add_payment (new_hold agent.id key order) is_agent is_order free))
            (Write.set_agent (agent_by_id agent.id) (debit order.amount) (λ x. refl) (λ x. refl)))
    hold_funds-Writes (some t) db' h = elim (Bool-cases (is_released t.status)) [
      | inl gone ↦
          let (enough, a) =
            raise_if-ok (ltb_ℤ agent.balance order.amount) short_again
              (ok (hold_again agent order db)) (rw gone at h) in
          subst (Writes P db) (ok-injective _ _ a) (
            more (more done (Write.set_status (for_order order.id) held))
              (Write.set_agent (agent_by_id agent.id) (debit order.amount) (λ x. refl) (λ x. refl)))
      | inr live ↦ subst (Writes P db) (ok-injective _ _ (rw live at h)) done
    ]

  mark_issuing-Writes :
      (agent : Agent) (order : Order) (key : String) (db0 db db' : Db) (b : Began)
      → Writes P db0 db
      → mark_issuing agent order key db ≡ ok (b, db')
      → Writes P db0 db'
  unfolding mark_issuing issuing_marked add_status_audit
  mark_issuing-Writes agent order key db0 db db' b ws h =
      let (free, a) = raise_if-ok (issue_key_taken key order db) integrity_error _ h in
      subst (Writes P db0) (ap (λ (r : Began × Db). r.1) (ok-injective _ _ a))
        (more (more ws (Write.mark_issuing agent.id order.id key free)) (Write.log _))

  -- The first session: what commits is such a sequence, and a rollback writes nothing.
  pub begin_issue-Writes : (a j key : String) (db : Db) → Writes P db (begin_issue a j key db).1
  unfolding begin_issue begin_found begin_locked
  begin_issue-Writes a j key db = committed (begin_found found found_agent key db) λ b db' h.
      let (order, is_order, h1) = or_raise-ok found (error not_found "Order not found") _ h in
      let (agent, is_agent, h2) =
        or_raise-ok found_agent (error not_found "Agent not found") _ h1 in
      let tx = scalar (for_order order.id) db.transactions in
      elim (Bool-cases (is_issued order.status)) [
        | inl over ↦
            subst (Writes P db) (ap (λ (r : Began × Db). r.1) (ok-injective _ _ (rw over at h2)))
              done
        | inr still ↦
            let (same, h3) = raise_if-ok (other_key key order) key_conflict _ (rw still at h2) in
            let (db1, funded, h4) =
              bind-ok (hold_funds agent order key tx db) (mark_issuing agent order key) h3 in
            mark_issuing-Writes agent order key db db1 db' b
              (hold_funds-Writes agent order key db
                (any-of_scalar (λ x. x.id) (agent_by_id a) db.agents agent is_agent)
                (any-of_scalar (λ x. x.id) (owned_order a j) db.orders order is_order) tx db1
                funded)
              h4
      ]
    where
      found : Option Order
      found = scalar (owned_order a j) db.orders

      found_agent : Option Agent
      found_agent = scalar (agent_by_id a) db.agents

      committed :
          (r : Result (Began × Db))
          → ((b : Began) (db' : Db) → r ≡ ok (b, db') → Writes P db db')
          → Writes P db (commit_or_rollback db r).1
      committed (ok (b, db')) k = k b db' refl
      committed (err e) k = done
