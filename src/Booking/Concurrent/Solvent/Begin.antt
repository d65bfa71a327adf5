-- ===== src/Booking/Concurrent/Solvent/Begin.antt =====
-- The first session of an issue holds no more than there is.
use ioka.Prelude.{◌≡◌, refl, ap, String, false, Option, none, some, inl, inr, arith, Bool-cases}
use mathlib.Core.Path.{subst}
use ioka.Prelude.Int.{ℤ, ◌≤ℤ◌, ltb_ℤ, int_laws}
use ioka.Prelude.Rows.{scalar, modify}
use ioka.Prelude.Each.{Each, Each-append, Each-scalar, Each-modify, Each-modify_found}
use ioka.Domain.Enums.{held, is_issued, is_released}
use ioka.Exceptions.{
  Result, ok, err, integrity_error, error, not_found, ok-injective, raise_if-ok, or_raise-ok,
  bind-ok,
}
use ioka.Audit.{add_status_audit}
use ioka.Models.{Db, Agent, Order, BalanceTransaction, agent_by_id, owned_order, for_order}
use ioka.Booking.Issue.{
  Began, debit, set_payment, start_issuing, new_hold, short_of_funds, short_again, add_hold,
  hold_again, hold_key_taken, hold_funds, issue_key_taken, issuing_marked, mark_issuing,
  key_conflict, other_key, begin_locked, begin_found, begin_issue, commit_or_rollback,
}
use ioka.Booking.Concurrent.Solvent.{HasFunds, IsPriced, IsPaid, IsSolvent, own_agent}

covers : (agent : Agent) (x : ℤ) → ltb_ℤ agent.balance x ≡ false → HasFunds (debit x agent)
covers agent x h = let enough : x ≤ℤ agent.balance = ground arith in omega (int_laws, enough)

module _ (agent : Agent) (order : Order) (key : String) (db : Db)
    (found : scalar (agent_by_id agent.id) db.agents ≡ some agent) (priced : IsPriced order)
    (v : IsSolvent db) where
  debit-Each :
      ltb_ℤ agent.balance order.amount ≡ false
      → Each HasFunds (modify (agent_by_id agent.id) (debit order.amount) db.agents)
  debit-Each enough =
      Each-modify_found HasFunds (agent_by_id agent.id) (debit order.amount) db.agents agent found
        (covers agent order.amount enough) v.balances

  hold_funds-IsSolvent :
      (tx : Option BalanceTransaction) (db' : Db)
      → hold_funds agent order key tx db ≡ ok db'
      → IsSolvent db'
  unfolding hold_funds add_hold hold_again new_hold
  hold_funds-IsSolvent none db' h =
      let (enough, a) =
        raise_if-ok (ltb_ℤ agent.balance order.amount) (short_of_funds agent order) _ h in
      let (free, b) =
        raise_if-ok (hold_key_taken key db) integrity_error (ok (add_hold agent order key db)) a in
      subst IsSolvent (ok-injective _ _ b) (record {
        balances = debit-Each enough;
        prices = v.prices;
        payments =
            Each-append IsPaid db.transactions (new_hold agent.id key order) v.payments priced;
      })
  hold_funds-IsSolvent (some t) db' h = elim (Bool-cases (is_released t.status)) [
    | inl gone ↦
        let (enough, a) =
          raise_if-ok (ltb_ℤ agent.balance order.amount) short_again
            (ok (hold_again agent order db)) (rw gone at h) in
        subst IsSolvent (ok-injective _ _ a) (record {
          balances = debit-Each enough;
          prices = v.prices;
          payments =
              Each-modify IsPaid (for_order order.id) (set_payment held) db.transactions (λ x k. k)
                v.payments;
        })
    | inr here ↦ subst IsSolvent (ok-injective _ _ (rw here at h)) v
  ]

mark_issuing-IsSolvent :
    (agent : Agent) (order : Order) (key : String) (db db' : Db) (b : Began)
    → IsSolvent db
    → mark_issuing agent order key db ≡ ok (b, db')
    → IsSolvent db'
unfolding mark_issuing issuing_marked add_status_audit
mark_issuing-IsSolvent agent order key db db' b v h =
    let (free, a) = raise_if-ok (issue_key_taken key order db) integrity_error _ h in
    subst IsSolvent (ap (λ (r : Began × Db). r.1) (ok-injective _ _ a)) (record {
      balances = v.balances;
      prices =
          Each-modify IsPriced (owned_order agent.id order.id) (start_issuing key) db.orders
            (λ x k. k) v.prices;
      payments = v.payments;
    })

-- The first session: what commits is solvent, and a rollback is the database as it was.
pub begin_issue-IsSolvent :
    (a j key : String) (db : Db) → IsSolvent db → IsSolvent (begin_issue a j key db).1
unfolding begin_issue begin_found begin_locked
begin_issue-IsSolvent a j key db v = committed (begin_found found found_agent key db) λ b db' h.
    let (order, is_order, h1) = or_raise-ok found (error not_found "Order not found") _ h in
    let (agent, is_agent, h2) = or_raise-ok found_agent (error not_found "Agent not found") _ h1 in
    let tx = scalar (for_order order.id) db.transactions in
    let priced = Each-scalar IsPriced (owned_order a j) db.orders order is_order v.prices in
    elim (Bool-cases (is_issued order.status)) [
      | inl done ↦
          subst IsSolvent (ap (λ (r : Began × Db). r.1) (ok-injective _ _ (rw done at h2))) v
      | inr still ↦
          let (same, h3) = raise_if-ok (other_key key order) key_conflict _ (rw still at h2) in
          let (db1, funded, h4) =
            bind-ok (hold_funds agent order key tx db) (mark_issuing agent order key) h3 in
          mark_issuing-IsSolvent agent order key db1 db' b
            (hold_funds-IsSolvent agent order key db (own_agent a db.agents agent is_agent) priced v
              tx db1 funded)
            h4
    ]
  where
    found : Option Order
    found = scalar (owned_order a j) db.orders

    found_agent : Option Agent
    found_agent = scalar (agent_by_id a) db.agents

    committed :
        (r : Result (Began × Db))
        → ((b : Began) (db' : Db) → r ≡ ok (b, db') → IsSolvent db')
        → IsSolvent (commit_or_rollback db r).1
    committed (ok (b, db')) k = k b db' refl
    committed (err e) k = v
