-- ===== src/Booking/Ledger/Store.antt =====
-- `save_order` of `create_order`, and the ledger.
use ioka.Prelude.{
  String, ◌≡◌, ◌≢◌, refl, ◌∙◌, false, none, some, List, [], ◌∷◌, ◌++◌, inl, inr, arith, eq_iff,
  eq_refl, Bool-cases, Option-cases,
}
use ioka.Prelude.Lists.{any}
use ioka.Prelude.Rows.{scalar, or_else, scalar-append}
use ioka.Domain.Enums.{booked}
use ioka.Audit.{add_status_audit, add_provider_audit}
use ioka.Models.{Db, Order, BalanceTransaction, Offer, Moment, owned_order, for_order}
use ioka.Booking.Create.{same_order, new_order, add_booking, save_order}
use ioka.Booking.Ledger.{IsLedger, payment_of, funds}
use ioka.Booking.Ledger.Touch.{Touches, Extends, touched-IsLedger, drop_last}
use ioka.Booking.Idempotency.{recorded}
use ioka.Schemas.{OrderCreate}
use ioka.Domain.Provider.{ProviderBooking}

-- No row of the table has the primary key of the new one.
any-none :
    (order : Order) (b : String) (os : List Order)
    → any (same_order order) os ≡ false
    → scalar (owned_order b order.id) os ≡ none
unfolding scalar
any-none order b [] h = refl
any-none order b (o ∷ os) h = ground (arith, any-none order b os)

-- A booked order in the table beside the old ones; the transactions are the same.
module _ (order : Order) (db db' : Db) (v : IsLedger db) (is_booked : order.status ≡ booked)
    (free : any (same_order order) db.orders ≡ false) (grown : db'.orders ≡ db.orders ++ order ∷ [])
    (same_payments : db'.transactions ≡ db.transactions) where
  no_payment : scalar (for_order order.id) db.transactions ≡ none
  no_payment = elim (Option-cases (scalar (for_order order.id) db.transactions)) [
    | inl e ↦ e
    | inr (t, e) ↦
        let (o, found) = v.grounded order.id t e in
        absurd (grind (arith, any-none order t.agent_id db.orders free))
  ]

  looked_up :
      (b k : String)
      → scalar (owned_order b k) db'.orders
        ≡ or_else (scalar (owned_order b k) db.orders) (scalar (owned_order b k) (order ∷ []))
  looked_up b k = rw grown (scalar-append (owned_order b k) db.orders (order ∷ []))

  not_other : (b k : String) → k ≢ order.id → scalar (owned_order b k) (order ∷ []) ≡ none
  unfolding scalar
  not_other b k other = ground (arith, eq_iff order.id k)

  only_own :
      (b : String) (x : Order)
      → scalar (owned_order b order.id) (order ∷ []) ≡ some x
      → (b ≡ order.agent_id)
  unfolding scalar
  only_own b x e = ground (arith, eq_iff order.agent_id b, eq_refl order.id)

  stored : Touches order.agent_id order.id order db db'
  unfolding scalar
  stored = record {
    order =
        looked_up order.agent_id order.id
        ∙ rw (
          any-none order order.agent_id db.orders free,
          eq_refl order.id,
          eq_refl order.agent_id,
        );
    owner = λ b y e. only_own b y (rw (looked_up b order.id, any-none order b db.orders free) at e);
    other_orders = λ b k other.
        looked_up b k ∙ drop_last (scalar (owned_order b k) db.orders) (not_other b k other);
    other_payments = λ k other. rw same_payments;
  }

  pub stored-IsLedger : IsLedger db'
  stored-IsLedger =
      touched-IsLedger stored v (λ t e. absurd (none_there t (rw same_payments at e)))
        (rw (same_payments, no_payment, is_booked))
    where
      none_there :
          (t : BalanceTransaction) → scalar (for_order order.id) db.transactions ≡ some t → ⊥
      none_there t e = cc no_payment

  stored-Extends : Extends db db'
  stored-Extends b k x e = (x, rw (looked_up b k, e))

-- What the storing session leaves, whichever way it ends.
pub record StorePost (db db' : Db) : Type 0 where
  pub ledger : IsLedger db'
  pub extends : Extends db db'
  pub same_funds : (a : String) → funds a db' ≡ funds a db
  pub same_payments : (k : String) → payment_of k db' ≡ payment_of k db

module _ (at : Moment) (agent_id : String) (payload : OrderCreate) (key payload_hash : String)
    (offer : Offer) (booking : ProviderBooking) (db : Db) (v : IsLedger db) where
  unchanged : StorePost db db
  unchanged = record {
    ledger = v;
    extends = λ b k x e. (x, e);
    same_funds = λ a. refl;
    same_payments = λ k. refl;
  }

  pub save_order-Post :
      StorePost db (save_order at agent_id payload key payload_hash offer booking db).1
  unfolding save_order add_booking add_status_audit add_provider_audit
  save_order-Post =
      let order = new_order at agent_id payload offer booking in
      let after = add_booking at agent_id key payload_hash offer order db in
      elim (Bool-cases (any (same_order order) db.orders)) [
        | inl taken ↦ rw taken unchanged
        | inr free ↦
            elim (Bool-cases (any (recorded agent_id "create_order" key) db.idempotency_records)) [
              | inl clash ↦ rw (free, clash) unchanged
              | inr fresh ↦
                  rw (free, fresh)
                    (record {
                      ledger = stored-IsLedger order db after v refl free refl refl;
                      extends = stored-Extends order db after v refl free refl refl;
                      same_funds = λ a. refl;
                      same_payments = λ k. refl;
                    })
            ]
      ]
