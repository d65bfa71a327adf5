-- ===== src/Booking/Create/Answers.antt =====
-- What `create_order` does for a new key, on every answer of the provider.
use mathlib.Core.Path.{subst}
use ioka.Prelude.{
  ◌+◌, String, ◌≡◌, refl, sym, true, false, none, some, List, [], ◌∷◌, ◌++◌, arith, eq_refl,
}
use ioka.Prelude.Lists.{any, length, length-append}
use ioka.Audit.{add_status_audit, add_provider_audit}
use ioka.Prelude.Rows.{scalar}
use ioka.Json.{Fields}
use ioka.Domain.Enums.{booked}
use ioka.Domain.Calendar.{has_passed}
use ioka.Domain.Provider.{
  AirlineProvider, ProviderBooking, Outcome, returned, raised, timed_out, is_failure,
}
use ioka.Exceptions.{Result, ok, err, error, conflict, not_found, provider_error}
use ioka.Models.{Db, Offer, Order, Moment, owned_order}
use ioka.Schemas.{OrderCreate, dump_order, dump_passenger}
use ioka.Booking.Idempotency.{recorded, idempotent_order}
use ioka.Booking.Create.{
  same_order, new_order, offered_to, save_order, finish_booking, audit_failed_booking,
  bookable_offer, get_order, add_booking, create_order,
}

-- The 502: nothing is stored but one audit row, and the key is still new.
abbrev pub Rejected :
    {S : Type 0} → String → String → String → Db → S → Result Order × Db × S → Type 0
Rejected a key hash db t (r, db', s') =
    (r ≡ err (error provider_error "Airline provider rejected the booking"))
    × (record db' { audit_logs = db.audit_logs } ≡ db)
    × (length db'.audit_logs ≡ length db.audit_logs + 1)
    × (idempotent_order a "create_order" key hash db' ≡ ok none)
    × (s' ≡ t)

-- The order that is stored, and what stays as it was.
abbrev pub Booked :
    {S : Type 0} → String → Offer → ProviderBooking → Order → Db → Result Order × Db × S → Type 0
Booked a offer booking order db (r, db', s') =
    (r ≡ ok order)
    × (order.status ≡ booked)
    × (order.agent_id ≡ a)
    × (order.amount ≡ offer.total_amount)
    × (order.currency ≡ offer.currency)
    × (order.booking_reference ≡ booking.booking_reference)
    × (db'.orders ≡ db.orders ++ order ∷ [])
    × (db'.agents ≡ db.agents)
    × (db'.transactions ≡ db.transactions)
    × (get_order a order.id db' ≡ ok order)

fresh_owned :
    (order : Order) (os : List Order)
    → any (same_order order) os ≡ false
    → scalar (owned_order order.agent_id order.id) (os ++ order ∷ []) ≡ some order
unfolding scalar
fresh_owned order [] h = rw (eq_refl order.id, eq_refl order.agent_id)
fresh_owned order (o ∷ os) h = ground (arith, fresh_owned order os)

module _ {S : Type 0} (provider : AirlineProvider S) (request_hash : Fields → String) (at : Moment)
    (a : String) (payload : OrderCreate) (key : String) (db : Db) (s : S)
    (new_key : idempotent_order a "create_order" key (request_hash (dump_order payload)) db
      ≡ ok none) where
  -- With a new key, an offer that no search of the agent's has brought is answered by 404; the
  -- database is unchanged and the provider is not called.
  create_order_unknown_offer :
      scalar (offered_to a payload.offer_id db) db.offers ≡ none
      → create_order provider request_hash at a payload key db s
        ≡ (err (error not_found "Offer not found"), db, s)
  unfolding create_order bookable_offer
  create_order_unknown_offer e = rw (new_key, e)

  -- With a new key, an offer that has expired is answered by 409; the database is unchanged and the
  -- provider is not called.
  create_order_expired :
      (offer : Offer)
      → scalar (offered_to a payload.offer_id db) db.offers ≡ some offer
      → has_passed offer.expires_at at.now ≡ true
      → create_order provider request_hash at a payload key db s
        ≡ (err (error conflict "Offer has expired"), db, s)
  unfolding create_order bookable_offer
  create_order_expired offer e late = rw (new_key, e, late)

  module _ (offer : Offer)
      (found : scalar (offered_to a payload.offer_id db) db.offers ≡ some offer)
      (open_offer : has_passed offer.expires_at at.now ≡ false) (t : S) where
    abbrev pub call : Outcome ProviderBooking × S
    call = provider.book offer.provider_offer_id (dump_passenger payload.passenger) key s

    abbrev answered : Outcome ProviderBooking × S → Result Order × Db × S
    answered (outcome, s') =
        let (r, db') =
          finish_booking at a payload key (request_hash (dump_order payload)) offer outcome db in
        (r, db', s')

    create_order-answered : create_order provider request_hash at a payload key db s ≡ answered call
    unfolding create_order bookable_offer
    create_order-answered = rw (new_key, found, open_offer)

    failure-Rejected :
        (failure : Outcome ProviderBooking)
        → is_failure failure ≡ true
        → Rejected a key (request_hash (dump_order payload)) db t (answered (failure, t))
    unfolding finish_booking audit_failed_booking add_provider_audit idempotent_order
    failure-Rejected (returned booking) failed = cc
    failure-Rejected (raised message class) failed =
        (refl, refl, length-append db.audit_logs _, new_key, refl)
    failure-Rejected (timed_out message) failed =
        (refl, refl, length-append db.audit_logs _, new_key, refl)

    -- With a new key and an offer of the agent's that has not expired: if the provider raises or
    -- times out, the call is answered by 502; no order and no idempotency record is made, the
    -- database has one more audit row and is otherwise the same, and the key is still new.
    pub create_order_failed :
        (failure : Outcome ProviderBooking)
        → call ≡ (failure, t)
        → is_failure failure ≡ true
        → Rejected a key
            (request_hash (dump_order payload))
            db
            t
            (create_order provider request_hash at a payload key db s)
    create_order_failed failure e failed =
        subst (Rejected a key (request_hash (dump_order payload)) db t) (sym create_order-answered)
          (subst (λ c. Rejected a key (request_hash (dump_order payload)) db t (answered c)) (sym e)
            (failure-Rejected failure failed))

    stored :
        (booking : ProviderBooking)
        → any (same_order (new_order at a payload offer booking)) db.orders ≡ false
        → any (recorded a "create_order" key) db.idempotency_records ≡ false
        → Booked a offer booking
            (new_order at a payload offer booking)
            db
            (answered (returned booking, t))
    unfolding finish_booking save_order add_booking add_status_audit add_provider_audit get_order
    stored booking free unused =
        rw (free, unused)
          (
            refl,
            refl,
            refl,
            refl,
            refl,
            refl,
            refl,
            refl,
            refl,
            rw (fresh_owned (new_order at a payload offer booking) db.orders free),
          )

    -- With a new key and an offer of the agent's that has not expired: if the key has no
    -- idempotency record and the provider returns a booking whose reference, and whose drawn order
    -- id, no order has, one order is made: BOOKED, of the agent, with the offer's amount and
    -- currency and the booking's reference. It is appended to the orders, `get_order` finds it, and
    -- no balance and no balance transaction changes.
    pub create_order-Booked :
        (booking : ProviderBooking)
        → call ≡ (returned booking, t)
        → any (same_order (new_order at a payload offer booking)) db.orders ≡ false
        → any (recorded a "create_order" key) db.idempotency_records ≡ false
        → Booked a offer booking
            (new_order at a payload offer booking)
            db
            (create_order provider request_hash at a payload key db s)
    create_order-Booked booking e free unused =
        subst (Booked a offer booking (new_order at a payload offer booking) db)
          (sym create_order-answered)
          (subst
            (λ c. Booked a offer booking (new_order at a payload offer booking) db (answered c))
            (sym e) (stored booking free unused))
