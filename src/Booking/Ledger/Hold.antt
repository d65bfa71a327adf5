-- ===== src/Booking/Ledger/Hold.antt =====
-- `begin_issue` and the ledger, however the session ends.
use mathlib.Core.Path.{subst, subst₂}
use ioka.Prelude.{
  String, ◌≡◌, refl, sym, ap, true, false, Option, none, some, inl, inr, arith, eq_iff, eq_of_test,
  Bool-cases,
}
use ioka.Prelude.Rows.{scalar, scalar-holds}
use ioka.Domain.Enums.{is_issued}
use ioka.Exceptions.{Result, ok, err}
use ioka.Models.{Db, Agent, Order, agent_by_id, owned_order, for_order}
use ioka.Booking.Issue.{
  Began, already, started, begin_locked, begin_found, begin_issue, commit_or_rollback,
}
use ioka.Booking.Ledger.{IsLedger, funds}
use ioka.Booking.Ledger.Begin.{Started, begin_locked-Started}

-- The rows that a session that goes on has found under the ids that it was given.
pub record Holding (a j key : String) (db db' : Db) : Type 0 where
  pub agent : Agent
  pub order : Order
  pub agent_found : scalar (agent_by_id a) db.agents ≡ some agent
  pub order_found : scalar (owned_order a j) db.orders ≡ some order
  pub agent_id : agent.id ≡ a
  pub order_id : order.id ≡ j
  pub start : Started agent order key db db'

abbrev pub BeginPost : String → String → String → Db → Result Began × Db → Type 0
BeginPost a j key db (ok (started booking_id), db') = Holding a j key db db'
BeginPost a j key db (ok (already order agent), db') = db' ≡ db
BeginPost a j key db (err e, db') = db' ≡ db

module _ (a j key : String) (db : Db) (v : IsLedger db) where
  module _ (agent : Agent) (order : Order) (ea : scalar (agent_by_id a) db.agents ≡ some agent)
      (eo : scalar (owned_order a j) db.orders ≡ some order) where
    ids : (agent.id ≡ a) × (order.id ≡ j)
    ids =
        let ha = scalar-holds (agent_by_id a) db.agents agent ea in
        let ho = scalar-holds (owned_order a j) db.orders order eo in
        (eq_of_test agent.id a ha, ground (arith, eq_iff order.id j))

    own : scalar (owned_order agent.id order.id) db.orders ≡ some order
    own = subst₂ (λ x y. scalar (owned_order x y) db.orders ≡ some order) (sym ids.0) (sym ids.1) eo

    went_on :
        (b : Began) (db' : Db)
        → is_issued order.status ≡ false
        → begin_locked agent order key (scalar (for_order order.id) db.transactions) db
          ≡ ok (b, db')
        → BeginPost a j key db (ok b, db')
    went_on b db' open_order e =
        let (start, which) =
          begin_locked-Started agent order key db v own _ b db' refl open_order e in
        rw which (record {
          agent = agent;
          order = order;
          agent_found = ea;
          order_found = eo;
          agent_id = ids.0;
          order_id = ids.1;
          start = start;
        })

    nothing_left :
        (b : Began) (db' : Db)
        → is_issued order.status ≡ true
        → begin_locked agent order key (scalar (for_order order.id) db.transactions) db
          ≡ ok (b, db')
        → BeginPost a j key db (ok b, db')
    unfolding begin_locked
    nothing_left (already o g) db' done e = grind arith
    nothing_left (started booking_id) db' done e = grind arith

    locked_post :
        (r : Result (Began × Db))
        → begin_locked agent order key (scalar (for_order order.id) db.transactions) db ≡ r
        → BeginPost a j key db (commit_or_rollback db r)
    locked_post (err x) e = refl
    locked_post (ok (b, db')) e = elim (Bool-cases (is_issued order.status)) [
      | inl done ↦ nothing_left b db' done e
      | inr open_order ↦ went_on b db' open_order e
    ]

  from_rows :
      (eo : Option Order) (ea : Option Agent)
      → scalar (owned_order a j) db.orders ≡ eo
      → scalar (agent_by_id a) db.agents ≡ ea
      → BeginPost a j key db (commit_or_rollback db (begin_found eo ea key db))
  unfolding begin_found
  from_rows none ea fo fa = refl
  from_rows (some order) none fo fa = refl
  from_rows (some order) (some agent) fo fa = locked_post agent order fa fo _ refl

  pub begin_issue-Post : BeginPost a j key db (begin_issue a j key db)
  unfolding begin_issue
  begin_issue-Post = from_rows _ _ refl refl

  -- The session moves money, and makes and destroys none, whichever way it ends.
  post-funds :
      (r : Result Began × Db) → BeginPost a j key db r → (b : String) → funds b r.1 ≡ funds b db
  post-funds (ok (started booking_id), db') h b = h.start.same_funds b
  post-funds (ok (already o g), db') h b = ap (funds b) h
  post-funds (err e, db') h b = ap (funds b) h

  post-IsLedger : (r : Result Began × Db) → BeginPost a j key db r → IsLedger r.1
  post-IsLedger (ok (started booking_id), db') h = h.start.ledger
  post-IsLedger (ok (already o g), db') h = subst IsLedger (sym h) v
  post-IsLedger (err e, db') h = subst IsLedger (sym h) v

  -- Whichever way the first session of an issue ends, no agent's balance together with what is
  -- held or captured from it changes, from a database in which orders and balance transactions
  -- agree.
  pub begin_issue-funds : (b : String) → funds b (begin_issue a j key db).1 ≡ funds b db
  begin_issue-funds = post-funds _ begin_issue-Post

  -- It also keeps orders and balance transactions in agreement.
  pub begin_issue-IsLedger : IsLedger (begin_issue a j key db).1
  begin_issue-IsLedger = post-IsLedger _ begin_issue-Post
