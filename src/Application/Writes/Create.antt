-- ===== src/Application/Writes/Create.antt =====
-- The writes of `create_order` after the provider's answer, for an agent and an offer that are
-- stored.
use ioka.Prelude.{◌≡◌, refl, String, true, ◌==◌, inl, inr, Bool-cases}
use ioka.Prelude.Lists.{any}
use ioka.Domain.Provider.{ProviderBooking, Outcome, returned, raised, timed_out}
use ioka.Audit.{add_status_audit, add_provider_audit}
use ioka.Models.{Db, Offer, Order, Moment, agent_by_id}
use ioka.Schemas.{OrderCreate}
use ioka.Booking.Idempotency.{recorded}
use ioka.Booking.Create.{
  same_order, new_order, new_record, add_booking, save_order, finish_booking, audit_failed_booking,
}
use ioka.Application.Writes.{Write, Writes, done, more}

module _ (P : Offer → Type 0) where
  module _ (at : Moment) (agent_id : String) (payload : OrderCreate) (key payload_hash : String)
      (offer : Offer) (db : Db) (is_agent : any (agent_by_id agent_id) db.agents ≡ true)
      (is_offer : any (λ o. o.id == offer.id) db.offers ≡ true) where
    save_order-Writes :
        (booking : ProviderBooking)
        → Writes P db (save_order at agent_id payload key payload_hash offer booking db).1
    unfolding save_order new_order new_record add_booking add_status_audit add_provider_audit
    save_order-Writes booking = elim (Bool-cases (any (same_order order) db.orders)) [
      | inl taken ↦ rw taken done
      | inr free ↦
          elim (Bool-cases (any (recorded agent_id "create_order" key) db.idempotency_records)) [
            | inl again ↦ rw (free, again) done
            | inr once ↦
                rw (free, once)
                  (more
                    (more
                      (more (more done (Write.add_order order is_agent is_offer free refl refl)) (
                        Write.add_record (new_record agent_id key payload_hash order) is_agent
                          once))
                      (Write.log _))
                    (Write.log _))
          ]
    ]
      where
        order : Order
        order = new_order at agent_id payload offer booking

    pub finish_booking-Writes :
        (outcome : Outcome ProviderBooking)
        → Writes P db (finish_booking at agent_id payload key payload_hash offer outcome db).1
    unfolding finish_booking audit_failed_booking add_provider_audit
    finish_booking-Writes (returned booking) = save_order-Writes booking
    finish_booking-Writes (raised message class) = more done (Write.log _)
    finish_booking-Writes (timed_out message) = more done (Write.log _)
