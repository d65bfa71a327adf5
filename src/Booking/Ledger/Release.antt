-- ===== src/Booking/Ledger/Release.antt =====
-- `_release_hold` and the ledger: the order, its transaction and its agent's balance.
use mathlib.Core.Path.{subst, subst₂}
use ioka.Prelude.{
  String, ◌≡◌, refl, sym, ap, true, Option, none, some, ◌⊎◌, inl, inr, arith, eq_refl, eq_of_test,
  Bool-cases,
}
use ioka.Prelude.Rows.{scalar, scalar_unique, modify-finer, scalar-holds, scalar-finer}
use ioka.Domain.Enums.{PaymentStatus, held, released, is_held}
use ioka.Audit.{add_status_audit, add_provider_audit}
use ioka.Models.{
  Db, Agent, Order, BalanceTransaction, agent_by_id, order_by_id, owned_order, for_order,
}
use ioka.Booking.Issue.{set_payment}
use ioka.Booking.Settle.{book_again, give_back, release_found, release_hold}
use ioka.Booking.Ledger.{IsLedger, payment_of, funds, funds-credit, taken-release}
use ioka.Booking.Ledger.Touch.{
  Touches, touched-IsLedger, update-Touches, payment-set_other, payment-set_self,
}

-- The order is bookable again and its hold is given back.
pub record Released (agent : Agent) (order : Order) (db db' : Db) : Type 0 where
  pub touches : Touches agent.id order.id (book_again order) db db'
  pub ledger : IsLedger db'
  pub same_funds : (a : String) → funds a db' ≡ funds a db
  pub payment : payment_of order.id db' ≡ some released

module _ (agent : Agent) (order : Order) (t : BalanceTransaction) (message : String) (db : Db)
    (v : IsLedger db) (first : scalar (order_by_id order.id) db.orders ≡ some order)
    (found : scalar (owned_order agent.id order.id) db.orders ≡ some order)
    (paid : scalar (for_order order.id) db.transactions ≡ some t) (holding : t.status ≡ held) where
  touches : Touches agent.id order.id (book_again order) db (give_back order agent t message db)
  unfolding give_back add_status_audit add_provider_audit
  touches =
      update-Touches agent.id order.id order db (give_back order agent t message db) book_again v
        found (λ x. refl) (λ x. refl)
        (modify-finer (order_by_id order.id) (owned_order agent.id order.id) book_again db.orders
          order first (scalar-holds (owned_order agent.id order.id) db.orders order found)
          (λ y e. ground arith))
        (payment-set_other order.id released db.transactions)

  give_back-Released : Released agent order db (give_back order agent t message db)
  unfolding give_back add_status_audit add_provider_audit
  give_back-Released =
      let match = v.matched agent.id order.id order t found paid in
      let now = payment-set_self order.id released db.transactions t paid in
      record {
        touches = touches;
        ledger =
            touched-IsLedger touches v
              (λ u e.
                rw (scalar_unique (for_order order.id) _ u (set_payment released t) e now) match)
              (rw now);
        same_funds = λ a.
            funds-credit a agent.id t.amount db (give_back order agent t message db) refl
              (rw (← match.0) (taken-release a order.id db.transactions t paid (rw holding)));
        payment = rw now;
      }

-- What a release that changes anything has found under the ids that it was given.
pub record Releasing (a j : String) (db db' : Db) : Type 0 where
  pub agent : Agent
  pub order : Order
  pub agent_id : agent.id ≡ a
  pub order_id : order.id ≡ j
  pub agent_found : scalar (agent_by_id a) db.agents ≡ some agent
  pub order_found : scalar (owned_order a j) db.orders ≡ some order
  pub before : payment_of j db ≡ some held
  pub done : Released agent order db db'

abbrev pub ReleasePost : String → String → Db → Db → Type 0
ReleasePost a j db db' = (db' ≡ db) ⊎ Releasing a j db db'

-- The row that `_release_hold` finds by its id alone is the one that the agent owns.
module _ (a j : String) (db : Db) (v : IsLedger db) (o : Order)
    (owned : scalar (owned_order a j) db.orders ≡ some o) where
  first_row :
      (x : Order)
      → scalar (order_by_id j) db.orders ≡ some x
      → (x.id ≡ j) × (x.agent_id ≡ a) × (scalar (owned_order a j) db.orders ≡ some x)
  first_row x e =
      let id = eq_of_test x.id j (scalar-holds (order_by_id j) db.orders x e) in
      let mine =
        scalar-finer (order_by_id j) (owned_order x.agent_id j) db.orders x e
          (rw (id, eq_refl j, eq_refl x.agent_id)) (λ y h. ground arith) in
      let here = v.one_owner x.agent_id a j x o mine owned in
      (id, here, subst (λ d. scalar (owned_order d j) db.orders ≡ some x) here mine)

  give_back_post :
      (x : Order) (g : Agent) (t : BalanceTransaction) (message : String)
      → scalar (order_by_id j) db.orders ≡ some x
      → scalar (agent_by_id a) db.agents ≡ some g
      → scalar (for_order j) db.transactions ≡ some t
      → t.status ≡ held
      → Releasing a j db (give_back x g t message db)
  give_back_post x g t message ex eg et holding =
      let (id, here, mine) = first_row x ex in
      let gid = eq_of_test g.id a (scalar-holds (agent_by_id a) db.agents g eg) in
      record {
        agent = g;
        order = x;
        agent_id = gid;
        order_id = id;
        agent_found = eg;
        order_found = mine;
        before = rw (et, holding);
        done =
            give_back-Released g x t message db v
              (subst (λ k. scalar (order_by_id k) db.orders ≡ some x) (sym id) ex)
              (subst₂ (λ b k. scalar (owned_order b k) db.orders ≡ some x) (sym gid) (sym id) mine)
              (subst (λ k. scalar (for_order k) db.transactions ≡ some t) (sym id) et) holding;
      }

  held_status : (p : PaymentStatus) → is_held p ≡ true → p ≡ held
  held_status p h = ground arith

  release_found_post :
      (eo : Option Order) (eg : Option Agent) (et : Option BalanceTransaction) (message : String)
      → scalar (order_by_id j) db.orders ≡ eo
      → scalar (agent_by_id a) db.agents ≡ eg
      → scalar (for_order j) db.transactions ≡ et
      → ReleasePost a j db (release_found eo eg et message db)
  unfolding release_found
  release_found_post none eg et message fo fg ft = inl refl
  release_found_post (some x) none et message fo fg ft = inl refl
  release_found_post (some x) (some g) none message fo fg ft = inl refl
  release_found_post (some x) (some g) (some t) message fo fg ft =
      elim (Bool-cases (is_held t.status)) [
        | inl holding ↦
            inr (rw holding (give_back_post x g t message fo fg ft (held_status t.status holding)))
        | inr other ↦ inl (rw other)
      ]

  pub release_hold-Post : (message : String) → ReleasePost a j db (release_hold a j message db)
  unfolding release_hold
  release_hold-Post message = release_found_post _ _ _ message refl refl refl

  post-funds : (db' : Db) → ReleasePost a j db db' → (b : String) → funds b db' ≡ funds b db
  post-funds db' (inl same) b = ap (funds b) same
  post-funds db' (inr r) b = r.done.same_funds b

  post-IsLedger : (db' : Db) → ReleasePost a j db db' → IsLedger db'
  post-IsLedger db' (inl same) = subst IsLedger (sym same) v
  post-IsLedger db' (inr r) = r.done.ledger

  -- `_release_hold` for an order's own agent changes no agent's balance together with what is held
  -- or captured from it, from a database in which orders and balance transactions agree.
  pub release_hold-funds : (message b : String) → funds b (release_hold a j message db) ≡ funds b db
  release_hold-funds message = post-funds _ (release_hold-Post message)

  pub release_hold-IsLedger : (message : String) → IsLedger (release_hold a j message db)
  release_hold-IsLedger message = post-IsLedger _ (release_hold-Post message)
