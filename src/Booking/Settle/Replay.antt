-- ===== src/Booking/Settle/Replay.antt =====
-- What `issue_order` returns and leaves, and what it does for an order that is issued.
use mathlib.Core.Path.{subst, subst₂}
use ioka.Prelude.{
  ℕ, String, ◌≡◌, refl, sym, true, Option, none, some, inl, inr, arith, eq_iff, eq_of_test,
  Bool-cases,
}
use ioka.Prelude.Rows.{scalar, modify, scalar-holds, scalar-modify_self}
use ioka.Domain.Enums.{PaymentStatus, captured, is_issued}
use ioka.Domain.Provider.{AirlineProvider, ProviderTicket, Outcome, returned, raised, timed_out}
use ioka.Exceptions.{Result, ok, err, ◌>>=◌}
use ioka.Audit.{add_status_audit, add_provider_audit}
use ioka.Models.{Db, Agent, Order, BalanceTransaction, agent_by_id, owned_order}
use ioka.Booking.Issue.{
  Began, already, started, commit_or_rollback, begin_locked, begin_found, begin_issue, hold_funds,
  mark_issuing, issue_key_taken, other_key,
}
use ioka.Booking.Settle.{
  Issued, issue_with, ticket_taken, captured_db, capture, complete_found, complete_issue,
  finish_issue, call_issue, issue_order,
}

-- The order and the agent of a result are rows of the database that it left, and the order is
-- issued.
abbrev pub IsRecorded : String → String → Result Issued × Db → Type 0
IsRecorded a j (ok (order, agent, payment), db) =
    (scalar (owned_order a j) db.orders ≡ some order)
    × (scalar (agent_by_id a) db.agents ≡ some agent)
    × (is_issued order.status ≡ true)
IsRecorded a j (err e, db) = Unit {0}

module _ (a j key : String) (ticket : ProviderTicket) (n : ℕ) (db : Db) where
  captured_row :
      (order : Order) (agent : Agent)
      → scalar (owned_order a j) db.orders ≡ some order
      → scalar (agent_by_id a) db.agents ≡ some agent
      → scalar (owned_order a j) (captured_db key ticket n order agent db).orders
        ≡ some (issue_with ticket order)
  unfolding captured_db add_status_audit add_provider_audit
  captured_row order agent eo ea =
      let ha = eq_of_test agent.id a (scalar-holds (agent_by_id a) db.agents agent ea) in
      let ho = scalar-holds (owned_order a j) db.orders order eo in
      let hj : order.id ≡ j = ground (arith, eq_iff order.id j) in
      subst₂
        (λ x y.
          scalar (owned_order a j) (modify (owned_order x y) (issue_with ticket) db.orders)
          ≡ some (issue_with ticket order))
        (sym ha) (sym hj)
        (rw (scalar-modify_self (owned_order a j) (issue_with ticket) db.orders (λ x. refl), eo))

  complete_found-IsRecorded :
      (eo : Option Order) (ea : Option Agent) (et : Option BalanceTransaction)
      → scalar (owned_order a j) db.orders ≡ eo
      → scalar (agent_by_id a) db.agents ≡ ea
      → IsRecorded a j (commit_or_rollback db (complete_found eo ea et key ticket n db))
  unfolding complete_found capture
  complete_found-IsRecorded none ea et fo fa = tt
  complete_found-IsRecorded (some x) none et fo fa = tt
  complete_found-IsRecorded (some x) (some g) none fo fa = tt
  complete_found-IsRecorded (some x) (some g) (some t) fo fa =
      elim (Bool-cases (is_issued x.status)) [
        | inl done ↦ rw done (fo, fa, done)
        | inr open_order ↦ elim (Bool-cases (ticket_taken ticket x db)) [
          | inl clash ↦ rw (open_order, clash) tt
          | inr free ↦ rw (open_order, free) (captured_row x g fo fa, same_agents x g fa, refl)
        ]
      ]
    where
      same_agents :
          (x : Order) (g : Agent)
          → scalar (agent_by_id a) db.agents ≡ some g
          → scalar (agent_by_id a) (captured_db key ticket n x g db).agents ≡ some g
      same_agents x g e = unfold captured_db add_status_audit add_provider_audit in e

finish_issue-IsRecorded :
    (a j key : String) (n : ℕ) (outcome : Outcome ProviderTicket) (db : Db)
    → IsRecorded a j (finish_issue a j key n outcome db)
unfolding finish_issue complete_issue
finish_issue-IsRecorded a j key n (returned ticket) db =
    complete_found-IsRecorded a j key ticket n db _ _ _ refl refl
finish_issue-IsRecorded a j key n (raised message class) db = tt
finish_issue-IsRecorded a j key n (timed_out message) db = tt

-- The same of a first session that has found the order issued.
abbrev IsKnown : String → String → Result Began × Db → Type 0
IsKnown a j (ok (already order agent), db) = IsRecorded a j (ok (order, agent, captured), db)
IsKnown a j (ok (started booking_id), db) = Unit {0}
IsKnown a j (err e, db) = Unit {0}

module _ (a j key : String) (db : Db) where
  -- past the tests of the session nothing is `already`
  mark_issuing-IsKnown :
      (agent : Agent) (order : Order) (db1 : Db)
      → IsKnown a j (commit_or_rollback db (mark_issuing agent order key db1))
  unfolding mark_issuing
  mark_issuing-IsKnown agent order db1 = elim (Bool-cases (issue_key_taken key order db1)) [
    | inl taken ↦ rw taken tt
    | inr free ↦ rw free tt
  ]

  held-IsKnown :
      (agent : Agent) (order : Order) (r : Result Db)
      → IsKnown a j (commit_or_rollback db (r >>= mark_issuing agent order key))
  held-IsKnown agent order (ok db1) = mark_issuing-IsKnown agent order db1
  held-IsKnown agent order (err e) = tt

  locked-IsKnown :
      (agent : Agent) (order : Order) (tx : Option BalanceTransaction)
      → scalar (owned_order a j) db.orders ≡ some order
      → scalar (agent_by_id a) db.agents ≡ some agent
      → IsKnown a j (commit_or_rollback db (begin_locked agent order key tx db))
  unfolding begin_locked
  locked-IsKnown agent order tx eo ea = elim (Bool-cases (is_issued order.status)) [
    | inl done ↦ rw done (eo, ea, done)
    | inr open_order ↦ elim (Bool-cases (other_key key order)) [
      | inl conflict ↦ rw (open_order, conflict) tt
      | inr same ↦
          rw (open_order, same) (held-IsKnown agent order (hold_funds agent order key tx db))
    ]
  ]

  found-IsKnown :
      (eo : Option Order) (ea : Option Agent)
      → scalar (owned_order a j) db.orders ≡ eo
      → scalar (agent_by_id a) db.agents ≡ ea
      → IsKnown a j (commit_or_rollback db (begin_found eo ea key db))
  unfolding begin_found
  found-IsKnown none ea fo fa = tt
  found-IsKnown (some x) none fo fa = tt
  found-IsKnown (some x) (some g) fo fa = locked-IsKnown g x _ fo fa

  begin_issue-IsKnown : IsKnown a j (begin_issue a j key db)
  unfolding begin_issue
  begin_issue-IsKnown = found-IsKnown _ _ refl refl

  -- an issued order is found by the first session, whatever the key
  begin_issue-already :
      (order : Order) (agent : Agent)
      → scalar (owned_order a j) db.orders ≡ some order
      → scalar (agent_by_id a) db.agents ≡ some agent
      → is_issued order.status ≡ true
      → begin_issue a j key db ≡ (ok (already order agent), db)
  unfolding begin_issue begin_found begin_locked
  begin_issue-already order agent eo ea done = rw (eo, ea, done)

module _ {S : Type 0} (provider : AirlineProvider S) (a j key : String) (n : ℕ) where
  call_issue-IsRecorded :
      (began : Result Began) (db : Db) (s : S)
      → IsKnown a j (began, db)
      → let (r, db', s') = call_issue provider a j key n began db s in IsRecorded a j (r, db')
  unfolding call_issue
  call_issue-IsRecorded (err e) db s h = tt
  call_issue-IsRecorded (ok (already order agent)) db s h = h
  call_issue-IsRecorded (ok (started booking_id)) db s h = finish_issue-IsRecorded a j key n _ db

  -- What `issue_order` returns is in the database that it leaves, and the order is issued.
  pub issue_order-IsRecorded :
      (db : Db) (s : S)
      → let (r, db', s') = issue_order provider a j key n db s in IsRecorded a j (r, db')
  unfolding issue_order
  issue_order-IsRecorded db s = call_issue-IsRecorded _ _ s (begin_issue-IsKnown a j key db)

  -- After an `issue_order` that returned an order, the agent's next one for that order returns the
  -- same order and agent with CAPTURED, whatever its key; it writes nothing, takes no money and does
  -- not call the provider.
  pub issue_order-issue_order :
      (db : Db) (s : S) {order : Order} {agent : Agent} {payment : PaymentStatus} {db' : Db}
      {s' : S}
      → issue_order provider a j key n db s ≡ (ok (order, agent, payment), db', s')
      → (next_key : String) (m : ℕ) (t : S)
      → issue_order provider a j next_key m db' t ≡ (ok (order, agent, captured), db', t)
  unfolding issue_order
  issue_order-issue_order db s {order} {agent} {payment} {db'} e next_key m t =
      let (eo, ea, done) =
        subst (λ (r : Result Issued × Db × S). IsRecorded a j (r.0, r.1)) e
          (issue_order-IsRecorded db s) in
      rw (begin_issue-already a j next_key db' order agent eo ea done)
