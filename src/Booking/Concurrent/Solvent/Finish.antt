-- ===== src/Booking/Concurrent/Solvent/Finish.antt =====
-- The sessions after the provider's answer, and the storing session of a new order.
use ioka.Prelude.{ℕ, ◌≡◌, refl, String, Option, none, some, inl, inr, Bool-cases}
use ioka.Prelude.Int.{pos, ◌≤ℤ◌, int_laws}
use ioka.Prelude.Lists.{any}
use ioka.Prelude.Rows.{scalar}
use ioka.Prelude.Each.{Each-append, Each-scalar, Each-modify, Each-modify_found}
use ioka.Domain.Enums.{is_issued, is_held}
use ioka.Domain.Provider.{ProviderBooking, ProviderTicket, Outcome, returned, raised, timed_out}
use ioka.Audit.{add_status_audit, add_provider_audit}
use ioka.Models.{
  Db, Agent, Order, BalanceTransaction, Offer, Moment, agent_by_id, order_by_id, owned_order,
  for_order,
}
use ioka.Schemas.{OrderCreate}
use ioka.Booking.Idempotency.{recorded}
use ioka.Booking.Create.{same_order, new_order, add_booking, save_order}
use ioka.Booking.Issue.{credit, set_payment, commit_or_rollback}
use ioka.Booking.Settle.{
  issue_with, ticket_taken, captured_db, capture, complete_found, complete_issue, book_again,
  give_back, release_found, release_hold, finish_issue,
}
use ioka.Booking.Concurrent.Solvent.{HasFunds, IsPriced, IsPaid, IsSolvent, own_agent}

complete_issue-IsSolvent :
    (a j key : String) (ticket : ProviderTicket) (n : ℕ) (db : Db)
    → IsSolvent db
    → IsSolvent (complete_issue a j key ticket n db).1
unfolding complete_issue complete_found capture captured_db add_status_audit add_provider_audit
complete_issue-IsSolvent a j key ticket n db v =
    rows (scalar (owned_order a j) db.orders) (scalar (agent_by_id a) db.agents)
      (scalar (for_order j) db.transactions)
  where
    taken : (order : Order) (agent : Agent) → IsSolvent (captured_db key ticket n order agent db)
    taken order agent = record {
      balances = v.balances;
      prices =
          Each-modify IsPriced (owned_order agent.id order.id) (issue_with ticket) db.orders
            (λ x k. k) v.prices;
      payments =
          Each-modify IsPaid (for_order order.id) (set_payment _) db.transactions (λ x k. k)
            v.payments;
    }

    rows :
        (eo : Option Order) (ea : Option Agent) (et : Option BalanceTransaction)
        → IsSolvent (commit_or_rollback db (complete_found eo ea et key ticket n db)).1
    rows (some order) (some agent) (some t) = elim (Bool-cases (is_issued order.status)) [
      | inl done ↦ rw done v
      | inr still ↦ elim (Bool-cases (ticket_taken ticket order db)) [
        | inl clash ↦ rw (still, clash) v
        | inr free ↦ rw (still, free) (taken order agent)
      ]
    ]
    rows none ea et = v
    rows (some order) none et = v
    rows (some order) (some agent) none = v

-- What comes back was paid, so it is not negative.
release_hold-IsSolvent :
    (a j message : String) (db : Db) → IsSolvent db → IsSolvent (release_hold a j message db)
unfolding release_hold release_found give_back add_status_audit add_provider_audit
release_hold-IsSolvent a j message db v =
    rows (scalar (order_by_id j) db.orders) (scalar (agent_by_id a) db.agents)
      (scalar (for_order j) db.transactions) refl refl
  where
    paid_back :
        (order : Order) (agent : Agent) (t : BalanceTransaction)
        → scalar (agent_by_id agent.id) db.agents ≡ some agent
        → scalar (for_order j) db.transactions ≡ some t
        → IsSolvent (give_back order agent t message db)
    paid_back order agent t is_agent is_payment =
        let funds : HasFunds agent =
          Each-scalar HasFunds (agent_by_id agent.id) db.agents agent is_agent v.balances in
        let paid : IsPaid t =
          Each-scalar IsPaid (for_order j) db.transactions t is_payment v.payments in
        record {
          balances =
              Each-modify_found HasFunds (agent_by_id agent.id) (credit t.amount) db.agents agent
                is_agent (omega (int_laws, funds, paid)) v.balances;
          prices =
              Each-modify IsPriced (order_by_id order.id) book_again db.orders (λ x k. k) v.prices;
          payments =
              Each-modify IsPaid (for_order order.id) (set_payment _) db.transactions (λ x k. k)
                v.payments;
        }

    rows :
        (eo : Option Order) (ea : Option Agent) (et : Option BalanceTransaction)
        → scalar (agent_by_id a) db.agents ≡ ea
        → scalar (for_order j) db.transactions ≡ et
        → IsSolvent (release_found eo ea et message db)
    rows (some order) (some agent) (some t) is_agent is_payment =
        elim (Bool-cases (is_held t.status)) [
          | inl here ↦
              rw here (paid_back order agent t (own_agent a db.agents agent is_agent) is_payment)
          | inr gone ↦ rw gone v
        ]
    rows none ea et x y = v
    rows (some order) none et x y = v
    rows (some order) (some agent) none x y = v

pub save_order-IsSolvent :
    (at : Moment) (agent_id : String) (payload : OrderCreate) (key payload_hash : String)
    (offer : Offer) (booking : ProviderBooking) (db : Db)
    → pos 0 ≤ℤ offer.total_amount
    → IsSolvent db
    → IsSolvent (save_order at agent_id payload key payload_hash offer booking db).1
unfolding save_order new_order add_booking add_status_audit add_provider_audit
save_order-IsSolvent at agent_id payload key payload_hash offer booking db priced v =
    elim (Bool-cases (any (same_order order) db.orders)) [
      | inl taken ↦ rw taken v
      | inr free ↦
          elim (Bool-cases (any (recorded agent_id "create_order" key) db.idempotency_records)) [
            | inl again ↦ rw (free, again) v
            | inr once ↦
                rw (free, once)
                  (record {
                    balances = v.balances;
                    prices = Each-append IsPriced db.orders order v.prices priced;
                    payments = v.payments;
                  })
          ]
    ]
  where
    order : Order
    order = new_order at agent_id payload offer booking

pub finish_issue-IsSolvent :
    (a j key : String) (n : ℕ) (outcome : Outcome ProviderTicket) (db : Db)
    → IsSolvent db
    → IsSolvent (finish_issue a j key n outcome db).1
unfolding finish_issue
finish_issue-IsSolvent a j key n (returned ticket) db v =
    complete_issue-IsSolvent a j key ticket n db v
finish_issue-IsSolvent a j key n (raised message class) db v = release_hold-IsSolvent a j _ db v
finish_issue-IsSolvent a j key n (timed_out message) db v = release_hold-IsSolvent a j _ db v
