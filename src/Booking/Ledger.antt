-- ===== src/Booking/Ledger.antt =====
-- The money that the booking service keeps account of: an agent's balance and the balance
-- transactions that are held or captured (README.md, app/application/booking.py).
pub mod Touch
pub mod Begin
pub mod Hold
pub mod Release
pub mod Capture
pub mod Store
use mathlib.Core.Option
use ioka.Prelude.{
  ℕ, String, ◌≡◌, refl, sym, ap, ◌∙◌, ◌≢◌, Bool, true, false, Option, none, some, List, [], ◌∷◌,
  ◌++◌, ◌==◌, ◌&&◌, not, inl, inr, arith, eq_iff, eq_of_test, Bool-cases, if◌then◌else◌,
}
use ioka.Prelude.Int.{ℤ, pos, pos_part, neg_part, ◌+ℤ◌, ◌-ℤ◌, int_laws}
use ioka.Prelude.Rows.{scalar, modify, sum_by, sum_by-append, sum_by-modify, scalar-modify_key}
use ioka.Domain.Enums.{
  OrderStatus, PaymentStatus, booked, issuing, issued, cancelled, held, captured, released,
  is_released,
}
use ioka.Models.{Db, Agent, Order, BalanceTransaction, agent_by_id, owned_order, for_order}
use ioka.Booking.Issue.{debit, credit, set_payment}

-- What a transaction takes from the agent: nothing once it is released.
abbrev pub taken_from : String → BalanceTransaction → ℤ
taken_from a t = if t.agent_id == a && not (is_released t.status) then t.amount else pos 0

abbrev pub taken : String → List BalanceTransaction → ℤ
taken a ts = sum_by (taken_from a) ts

-- The balance and what is held or captured; `none` for an agent that is not there.
abbrev pub funds : String → Db → Option ℤ
funds a db =
    Option.map (λ agent. agent.balance +ℤ taken a db.transactions)
      (scalar (agent_by_id a) db.agents)

-- The payment status that goes with an order's status.
abbrev pub agrees : OrderStatus → Option PaymentStatus → Bool
agrees booked none = true
agrees booked (some released) = true
agrees issuing (some held) = true
agrees issued (some captured) = true
agrees cancelled none = true
agrees cancelled (some released) = true
agrees _ _ = false

abbrev pub payment_of : String → Db → Option PaymentStatus
payment_of k db = Option.map (λ t. t.status) (scalar (for_order k) db.transactions)

-- An order belongs to one agent; a transaction is of an order that is there, and an order's
-- transaction has that agent, the order's amount and the payment status that goes with the order's.
pub record IsLedger (db : Db) : Type 0 where
  pub one_owner :
      (a b k : String) (o p : Order)
      → scalar (owned_order a k) db.orders ≡ some o
      → scalar (owned_order b k) db.orders ≡ some p
      → a ≡ b
  pub matched :
      (a k : String) (o : Order) (t : BalanceTransaction)
      → scalar (owned_order a k) db.orders ≡ some o
      → scalar (for_order k) db.transactions ≡ some t
      → (t.agent_id ≡ a) × (t.amount ≡ o.amount)
  pub grounded :
      (k : String) (t : BalanceTransaction)
      → scalar (for_order k) db.transactions ≡ some t
      → (o : Order) × (scalar (owned_order t.agent_id k) db.orders ≡ some o)
  pub agreed :
      (a k : String) (o : Order)
      → scalar (owned_order a k) db.orders ≡ some o
      → agrees o.status (payment_of k db) ≡ true

-- The row of the agent that pays, or of another agent, beside its transactions.
debit-balance :
    (x t t' : ℤ) (same : Bool) (row : Option Agent)
    → t' ≡ t +ℤ (if same then x else pos 0)
    → Option.map (λ agent. agent.balance +ℤ t') (if same then Option.map (debit x) row else row)
      ≡ Option.map (λ agent. agent.balance +ℤ t) row
debit-balance x t t' true none e = refl
debit-balance x t t' false none e = refl
debit-balance x t t' true (some agent) e = ap some (rw e (omega int_laws))
debit-balance x t t' false (some agent) e = ap some (rw e (omega int_laws))

credit-balance :
    (x t t' : ℤ) (same : Bool) (row : Option Agent)
    → t' +ℤ (if same then x else pos 0) ≡ t
    → Option.map (λ agent. agent.balance +ℤ t') (if same then Option.map (credit x) row else row)
      ≡ Option.map (λ agent. agent.balance +ℤ t) row
credit-balance x t t' true none e = refl
credit-balance x t t' false none e = refl
credit-balance x t t' true (some agent) e = ap some (rw (← e) (omega int_laws))
credit-balance x t t' false (some agent) e = ap some (rw (← e) (omega int_laws))

-- Money that leaves a balance for a transaction, or comes back, leaves every agent's funds alone.
module _ (a k : String) (x : ℤ) (db db' : Db) where
  pub funds-debit :
      db'.agents ≡ modify (agent_by_id k) (debit x) db.agents
      → taken a db'.transactions ≡ taken a db.transactions +ℤ (if k == a then x else pos 0)
      → funds a db' ≡ funds a db
  funds-debit agents moved =
      rw (agents, scalar-modify_key (λ r. r.id) a k (debit x) db.agents (λ r. refl))
        (debit-balance x _ _ (k == a) (scalar (agent_by_id a) db.agents) moved)

  pub funds-credit :
      db'.agents ≡ modify (agent_by_id k) (credit x) db.agents
      → taken a db'.transactions +ℤ (if k == a then x else pos 0) ≡ taken a db.transactions
      → funds a db' ≡ funds a db
  funds-credit agents moved =
      rw (agents, scalar-modify_key (λ r. r.id) a k (credit x) db.agents (λ r. refl))
        (credit-balance x _ _ (k == a) (scalar (agent_by_id a) db.agents) moved)

pub taken_from-live :
    (a : String) (t : BalanceTransaction)
    → is_released t.status ≡ false
    → taken_from a t ≡ (if t.agent_id == a then t.amount else pos 0)
taken_from-live a t live = ground arith

pub taken_from-gone :
    (a : String) (t : BalanceTransaction) → is_released t.status ≡ true → taken_from a t ≡ pos 0
taken_from-gone a t gone = ground arith

pub drop_none : (s s' x y : ℤ) → s' +ℤ x ≡ s +ℤ y → x ≡ pos 0 → s' ≡ s +ℤ y
drop_none s s' x y e z =
    omega (int_laws, ap pos_part e, ap neg_part e, ap pos_part z, ap neg_part z)

drop_same : (s s' x y : ℤ) → s' +ℤ x ≡ s +ℤ y → x ≡ y → s' ≡ s
drop_same s s' x y e z =
    omega (int_laws, ap pos_part e, ap neg_part e, ap pos_part z, ap neg_part z)

drop_right : (s s' x y : ℤ) → s' +ℤ x ≡ s +ℤ y → y ≡ pos 0 → s' +ℤ x ≡ s
drop_right s s' x y e z =
    omega (int_laws, ap pos_part e, ap neg_part e, ap pos_part z, ap neg_part z)

-- A new hold takes its amount from its agent, and from nobody else.
pub taken-append :
    (a : String) (t : BalanceTransaction) (ts : List BalanceTransaction)
    → is_released t.status ≡ false
    → taken a (ts ++ t ∷ []) ≡ taken a ts +ℤ (if t.agent_id == a then t.amount else pos 0)
unfolding sum_by
taken-append a t ts live =
    rw (sum_by-append (taken_from a) ts (t ∷ []), taken_from-live a t live) (omega int_laws)

-- So does a released transaction that is held again.
pub taken-hold :
    (a k : String) (ts : List BalanceTransaction) (t : BalanceTransaction)
    → scalar (for_order k) ts ≡ some t
    → is_released t.status ≡ true
    → taken a (modify (for_order k) (set_payment held) ts)
      ≡ taken a ts +ℤ (if t.agent_id == a then t.amount else pos 0)
taken-hold a k ts t found gone =
    drop_none _ _ _ _ (sum_by-modify (taken_from a) (for_order k) (set_payment held) ts t found)
      (taken_from-gone a t gone)
    ∙ ap (λ x. taken a ts +ℤ x) (taken_from-live a (set_payment held t) refl)

-- A hold that is released gives its amount back.
pub taken-release :
    (a k : String) (ts : List BalanceTransaction) (t : BalanceTransaction)
    → scalar (for_order k) ts ≡ some t
    → is_released t.status ≡ false
    → taken a (modify (for_order k) (set_payment released) ts)
        +ℤ (if t.agent_id == a then t.amount else pos 0)
      ≡ taken a ts
taken-release a k ts t found live = rw (← taken_from-live a t live) (
    drop_right _ _ _ _
      (sum_by-modify (taken_from a) (for_order k) (set_payment released) ts t found)
      (taken_from-gone a (set_payment released t) refl))

-- A hold that is captured stays with its agent.
pub taken-capture :
    (a k : String) (ts : List BalanceTransaction) (t : BalanceTransaction)
    → scalar (for_order k) ts ≡ some t
    → is_released t.status ≡ false
    → taken a (modify (for_order k) (set_payment captured) ts) ≡ taken a ts
taken-capture a k ts t found live =
    drop_same _ _ _ _ (sum_by-modify (taken_from a) (for_order k) (set_payment captured) ts t found)
      (taken_from-live a t live ∙ sym (taken_from-live a (set_payment captured t) refl))

-- With no orders and no transactions there is nothing to agree.
pub IsLedger-empty : (db : Db) → db.orders ≡ [] → db.transactions ≡ [] → IsLedger db
unfolding scalar
IsLedger-empty db no_orders no_transactions = record {
  one_owner = λ a b k o p eo ep. absurd (nothing o (rw no_orders at eo));
  matched = λ a k o t eo et. absurd (nothing o (rw no_orders at eo));
  grounded = λ k t et. absurd (nothing t (rw no_transactions at et));
  agreed = λ a k o eo. absurd (nothing o (rw no_orders at eo));
}
  where
    nothing : {A : Type 0} (x : A) → none ≡ some x → ⊥
    nothing x e = cc
