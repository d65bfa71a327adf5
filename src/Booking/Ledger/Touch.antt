-- ===== src/Booking/Ledger/Touch.antt =====
-- A session works on one order, its agent and its transaction. Here: what that leaves of the
-- ledger's invariant, from how the one order and its transaction end up.
use mathlib.Core.Path.{subst, subst₂}
use ioka.Prelude.{
  String, ◌≡◌, ◌≢◌, refl, sym, ◌∙◌, true, Option, none, some, List, [], ◌∷◌, ◌++◌, inl, inr, arith,
  eq_iff, eq_refl, test_of_ne, eq-cases,
}
use ioka.Prelude.Rows.{
  scalar, or_else, scalar_unique, modify, scalar-append, scalar-modify_self, scalar-modify_ne,
  scalar-modify_old, scalar-modify_key,
}
use ioka.Models.{Db, Order, BalanceTransaction, owned_order, for_order}
use ioka.Domain.Enums.{PaymentStatus}
use ioka.Booking.Issue.{set_payment}
use ioka.Booking.Ledger.{IsLedger, agrees, payment_of}

-- The order that agent `a` owns under `j` ends as `o`, and no other order changes.
pub record Touches (a j : String) (o : Order) (db db' : Db) : Type 0 where
  pub order : scalar (owned_order a j) db'.orders ≡ some o
  pub owner : (b : String) (y : Order) → scalar (owned_order b j) db'.orders ≡ some y → b ≡ a
  pub other_orders :
      (b k : String)
      → k ≢ j
      → scalar (owned_order b k) db'.orders ≡ scalar (owned_order b k) db.orders
  pub other_payments :
      (k : String)
      → k ≢ j
      → scalar (for_order k) db'.transactions ≡ scalar (for_order k) db.transactions

module _ {a j : String} {o : Order} {db db' : Db} (c : Touches a j o db db') (v : IsLedger db) where
  owner_row :
      (b k : String) (x : Order)
      → k ≡ j
      → scalar (owned_order b k) db'.orders ≡ some x
      → (b ≡ a) × (x ≡ o)
  owner_row b k x same e =
      let here = c.owner b x (rw same at e) in
      let mine = subst (λ d. scalar (owned_order d j) db'.orders ≡ some x) here (rw same at e) in
      (here, scalar_unique (owned_order a j) db'.orders x o mine c.order)

  touched_one_owner :
      (b d k : String) (x y : Order)
      → scalar (owned_order b k) db'.orders ≡ some x
      → scalar (owned_order d k) db'.orders ≡ some y
      → b ≡ d
  touched_one_owner b d k x y ex ey = elim (eq-cases k j) [
    | inl same ↦ (owner_row b k x same ex).0 ∙ sym (owner_row d k y same ey).0
    | inr other ↦
        v.one_owner b d k x y (rw (c.other_orders b k other) at ex)
          (rw (c.other_orders d k other) at ey)
  ]

  -- The invariant holds again, if it does for the one order.
  pub touched-IsLedger :
      ((t : BalanceTransaction)
        → scalar (for_order j) db'.transactions ≡ some t
        → (t.agent_id ≡ a) × (t.amount ≡ o.amount))
      → agrees o.status (payment_of j db') ≡ true
      → IsLedger db'
  touched-IsLedger matched agreed = record {
    one_owner = touched_one_owner;
    matched = λ b k x t ex et. elim (eq-cases k j) [
      | inl same ↦
          let (here, row) = owner_row b k x same ex in rw (here, row) (matched t (rw same at et))
      | inr other ↦
          v.matched b k x t (rw (c.other_orders b k other) at ex)
            (rw (c.other_payments k other) at et)
    ];
    grounded = λ k t et. elim (eq-cases k j) [
      | inl same ↦ let mine = (matched t (rw same at et)).0 in (o, rw (same, mine) c.order)
      | inr other ↦
          let (x, ex) = v.grounded k t (rw (c.other_payments k other) at et) in
          (x, rw (c.other_orders t.agent_id k other) ex)
    ];
    agreed = λ b k x ex. elim (eq-cases k j) [
      | inl same ↦ rw (same, (owner_row b k x same ex).1) agreed
      | inr other ↦
          rw (c.other_payments k other) (v.agreed b k x (rw (c.other_orders b k other) at ex))
    ];
  }

-- An UPDATE of the row that the order's query found touches that order.
module _ (a j : String) (o : Order) (db db' : Db) (f : Order → Order) (v : IsLedger db)
    (found : scalar (owned_order a j) db.orders ≡ some o) (same_id : (x : Order) → (f x).id ≡ x.id)
    (same_agent : (x : Order) → (f x).agent_id ≡ x.agent_id)
    (update : db'.orders ≡ modify (owned_order a j) f db.orders) where
  keeps : (b k : String) (x : Order) → owned_order b k (f x) ≡ owned_order b k x
  keeps b k x = rw (same_id x, same_agent x)

  updated_owner : (b : String) (y : Order) → scalar (owned_order b j) db'.orders ≡ some y → b ≡ a
  updated_owner b y e =
      let (x, old, _) =
        scalar-modify_old (owned_order a j) (owned_order b j) f db.orders y (keeps b j)
          (rw update at e) in
      v.one_owner b a j x o old found

  updated_others :
      (b k : String)
      → k ≢ j
      → scalar (owned_order b k) db'.orders ≡ scalar (owned_order b k) db.orders
  updated_others b k other = rw update (
      scalar-modify_ne (owned_order a j) (owned_order b k) f db.orders (keeps b k)
        (λ x e. ground (arith, eq_iff x.id j, eq_iff x.id k)))

  pub update-Touches :
      ((k : String)
        → k ≢ j
        → scalar (for_order k) db'.transactions ≡ scalar (for_order k) db.transactions)
      → Touches a j (f o) db db'
  update-Touches other_payments = record {
    order = rw (update, scalar-modify_self (owned_order a j) f db.orders (keeps a j), found);
    owner = updated_owner;
    other_orders = updated_others;
    other_payments = other_payments;
  }

-- What the order's own transaction and the others' are, once its payment status is set.
module _ (j : String) (status : PaymentStatus) (ts : List BalanceTransaction) where
  pub payment-set_other :
      (k : String)
      → k ≢ j
      → scalar (for_order k) (modify (for_order j) (set_payment status) ts)
        ≡ scalar (for_order k) ts
  payment-set_other k other = rw (
    scalar-modify_key (λ t. t.order_id) k j (set_payment status) ts (λ t. refl),
    test_of_ne j k (λ e. other (sym e)),
  )

  pub payment-set_self :
      (t : BalanceTransaction)
      → scalar (for_order j) ts ≡ some t
      → scalar (for_order j) (modify (for_order j) (set_payment status) ts)
        ≡ some (set_payment status t)
  payment-set_self t found =
      rw (scalar-modify_self (for_order j) (set_payment status) ts (λ x. refl), found)

pub drop_last {ℓ} : {A : Type ℓ} (a : Option A) {b : Option A} → b ≡ none → or_else a b ≡ a
drop_last none e = e
drop_last (some x) e = refl

-- What they are once a first transaction is added for the order.
module _ (j : String) (ts : List BalanceTransaction) (t : BalanceTransaction)
    (e : t.order_id ≡ j) where
  pub payment-add_other :
      (k : String) → k ≢ j → scalar (for_order k) (ts ++ t ∷ []) ≡ scalar (for_order k) ts
  unfolding scalar
  payment-add_other k other =
      rw (scalar-append (for_order k) ts (t ∷ []))
        (drop_last (scalar (for_order k) ts) (rw (e, test_of_ne j k (λ same. other (sym same)))))

  pub payment-add_self :
      scalar (for_order j) ts ≡ none → scalar (for_order j) (ts ++ t ∷ []) ≡ some t
  unfolding scalar
  payment-add_self fresh = rw (scalar-append (for_order j) ts (t ∷ []), fresh, e, eq_refl j)

-- Every order that was there is there, with its owner.
abbrev pub Extends : Db → Db → Type 0
Extends db db' =
    (b k : String) (x : Order)
    → scalar (owned_order b k) db.orders ≡ some x
    → (y : Order) × (scalar (owned_order b k) db'.orders ≡ some y)

module _ (a j : String) (o old : Order) (db db' : Db) (c : Touches a j o db db') (v : IsLedger db)
    (found : scalar (owned_order a j) db.orders ≡ some old) where
  pub touched-Extends : Extends db db'
  touched-Extends b k x e = elim (eq-cases k j) [
    | inl same ↦
        let here = v.one_owner b a j x old (rw same at e) found in (o, rw (here, same) c.order)
    | inr other ↦ (x, rw (c.other_orders b k other) e)
  ]

-- The same, where the rows were found under ids that theirs are equal to.
pub found-Extends :
    (a j x y : String) (o old : Order) (db db' : Db)
    → x ≡ a
    → y ≡ j
    → Touches x y o db db'
    → IsLedger db
    → scalar (owned_order a j) db.orders ≡ some old
    → Extends db db'
found-Extends a j x y o old db db' ex ey c v found =
    touched-Extends x y o old db db' c v
      (subst₂ (λ b k. scalar (owned_order b k) db.orders ≡ some old) (sym ex) (sym ey) found)
