-- ===== src/Booking/Create/Replay.antt =====
-- `create_order` with a key that has an idempotency record.
use mathlib.Core.Path.{subst}
use ioka.Prelude.{
  String, ◌≡◌, ◌≢◌, refl, false, Option, none, some, List, [], ◌∷◌, ◌++◌, inl, inr, arith, eq_refl,
  test_of_ne, Bool-cases,
}
use ioka.Prelude.Lists.{any}
use ioka.Prelude.Rows.{scalar}
use ioka.Json.{Fields}
use ioka.Audit.{add_status_audit, add_provider_audit}
use ioka.Domain.Provider.{AirlineProvider, ProviderBooking, Outcome, returned, raised, timed_out}
use ioka.Exceptions.{Result, ok, err, error, conflict}
use ioka.Models.{Db, Offer, Order, Moment, IdempotencyRecord, order_by_id}
use ioka.Schemas.{OrderCreate, dump_order}
use ioka.Booking.Idempotency.{recorded, idempotent_order}
use ioka.Booking.Create.{
  same_order, new_order, new_record, add_booking, save_order, finish_booking, book_order,
  create_fresh, create_order,
}

-- The record and the order that the storing session adds are found by the next lookup.
module _ (at : Moment) (a key hash : String) (offer : Offer) (order : Order) (db : Db) where
  fresh_row :
      (os : List Order)
      → any (same_order order) os ≡ false
      → scalar (order_by_id order.id) (os ++ order ∷ []) ≡ some order
  unfolding scalar
  fresh_row [] h = rw (eq_refl order.id)
  fresh_row (o ∷ os) h = ground (arith, fresh_row os)

  fresh_record :
      (rs : List IdempotencyRecord)
      → any (recorded a "create_order" key) rs ≡ false
      → scalar (recorded a "create_order" key) (rs ++ new_record a key hash order ∷ [])
        ≡ some (new_record a key hash order)
  unfolding scalar new_record
  fresh_record [] h = rw (eq_refl a, eq_refl key)
  fresh_record (r ∷ rs) h = ground (arith, fresh_record rs)

  added_is_found :
      any (same_order order) db.orders ≡ false
      → any (recorded a "create_order" key) db.idempotency_records ≡ false
      → idempotent_order a "create_order" key hash (add_booking at a key hash offer order db)
        ≡ ok (some order)
  unfolding idempotent_order add_booking add_status_audit add_provider_audit new_record
  added_is_found free fresh =
      rw (fresh_record db.idempotency_records fresh, eq_refl hash, fresh_row db.orders free)

-- What a call that returned an order has left for the next one.
abbrev Replays : String → String → String → Result Order × Db → Type 0
Replays a key hash (ok order, db) = idempotent_order a "create_order" key hash db ≡ ok (some order)
Replays a key hash (err e, db) = Unit {0}

module _ (at : Moment) (a : String) (payload : OrderCreate) (key hash : String) (offer : Offer)
    (db : Db) (first : idempotent_order a "create_order" key hash db ≡ ok none) where
  save_order-Replays :
      (booking : ProviderBooking)
      → Replays a key hash (save_order at a payload key hash offer booking db)
  unfolding save_order
  save_order-Replays booking =
      let order = new_order at a payload offer booking in
      elim (Bool-cases (any (same_order order) db.orders)) [
        | inl taken ↦ rw taken tt
        | inr free ↦
            elim (Bool-cases (any (recorded a "create_order" key) db.idempotency_records)) [
              | inl clash ↦ rw (free, clash, first) tt
              | inr fresh ↦
                  rw (free, fresh) (added_is_found at a key hash offer order db free fresh)
            ]
      ]

  finish_booking-Replays :
      (outcome : Outcome ProviderBooking)
      → Replays a key hash (finish_booking at a payload key hash offer outcome db)
  unfolding finish_booking
  finish_booking-Replays (returned booking) = save_order-Replays booking
  finish_booking-Replays (raised message class) = tt
  finish_booking-Replays (timed_out message) = tt

module _ {S : Type 0} (provider : AirlineProvider S) (request_hash : Fields → String) (at : Moment)
    (a : String) (payload : OrderCreate) (key : String) where
  abbrev hash : String
  hash = request_hash (dump_order payload)

  book_order-Replays :
      (offer : Result Offer) (db : Db) (s : S)
      → idempotent_order a "create_order" key hash db ≡ ok none
      → let (r, db', s') = book_order provider request_hash at a payload key offer db s in
        Replays a key hash (r, db')
  unfolding book_order
  book_order-Replays (err e) db s first = tt
  book_order-Replays (ok offer) db s first =
      finish_booking-Replays at a payload key hash offer db first _

  create_fresh-Replays :
      (known : Result (Option Order)) (db : Db) (s : S)
      → idempotent_order a "create_order" key hash db ≡ known
      → let (r, db', s') = create_fresh provider request_hash at a payload key known db s in
        Replays a key hash (r, db')
  unfolding create_fresh
  create_fresh-Replays (err e) db s known = tt
  create_fresh-Replays (ok (some order)) db s known = known
  create_fresh-Replays (ok none) db s known = book_order-Replays _ db s known

  -- After a `create_order` that returned an order, the same agent's request with the same key and
  -- the same body returns the same order at any later time, and neither writes to the database nor
  -- calls the provider.
  pub create_order-create_order :
      (db : Db) (s : S) {order : Order} {db' : Db} {s' : S}
      → create_order provider request_hash at a payload key db s ≡ (ok order, db', s')
      → (after : Moment) (t : S)
      → create_order provider request_hash after a payload key db' t ≡ (ok order, db', t)
  unfolding create_order
  create_order-create_order db s {order} {db'} e after t = rw (
      subst (λ (r : Result Order × Db × S). Replays a key hash (r.0, r.1)) e
        (create_fresh-Replays _ db s refl))

  -- A request with a key that an earlier one of the agent's used, but with a body of another hash,
  -- is refused with 409, and nothing changes.
  create_order_conflict :
      (db : Db) (s : S) (r : IdempotencyRecord)
      → scalar (recorded a "create_order" key) db.idempotency_records ≡ some r
      → r.request_hash ≢ hash
      → create_order provider request_hash at a payload key db s
        ≡ (err (error conflict "Idempotency key was already used with a different request"), db, s)
  unfolding create_order idempotent_order
  create_order_conflict db s r e other = rw (e, test_of_ne r.request_hash hash other)
