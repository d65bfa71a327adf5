-- ===== src/Application/Writes/Settle.antt =====
-- The writes of the sessions of `issue_order` after the provider's answer.
use ioka.Prelude.{ℕ, refl, String, Option, none, some, inl, inr, Bool-cases}
use ioka.Prelude.Rows.{scalar}
use ioka.Domain.Enums.{captured, released, is_issued, is_held}
use ioka.Domain.Provider.{ProviderTicket, Outcome, returned, raised, timed_out}
use ioka.Audit.{add_status_audit, add_provider_audit}
use ioka.Models.{
  Db, Offer, Agent, Order, BalanceTransaction, agent_by_id, owned_order, order_by_id, for_order,
}
use ioka.Booking.Issue.{credit, commit_or_rollback}
use ioka.Booking.Settle.{
  ticket_taken, captured_db, capture, complete_found, complete_issue, give_back, release_found,
  release_hold, finish_issue,
}
use ioka.Application.Writes.{Write, Writes, done, more}

module _ (P : Offer → Type 0) where
  complete_issue-Writes :
      (a j key : String) (ticket : ProviderTicket) (n : ℕ) (db : Db)
      → Writes P db (complete_issue a j key ticket n db).1
  unfolding complete_issue complete_found capture captured_db add_status_audit add_provider_audit
  complete_issue-Writes a j key ticket n db =
      rows (scalar (owned_order a j) db.orders) (scalar (agent_by_id a) db.agents)
        (scalar (for_order j) db.transactions)
    where
      rows :
          (eo : Option Order) (ea : Option Agent) (et : Option BalanceTransaction)
          → Writes P db (commit_or_rollback db (complete_found eo ea et key ticket n db)).1
      rows (some order) (some agent) (some t) = elim (Bool-cases (is_issued order.status)) [
        | inl over ↦ rw over done
        | inr still ↦ elim (Bool-cases (ticket_taken ticket order db)) [
          | inl clash ↦ rw (still, clash) done
          | inr free ↦
              rw (still, free)
                (more
                  (more
                    (more (more done (Write.mark_issued agent.id order.id ticket free))
                      (Write.set_status (for_order order.id) captured))
                    (Write.log _))
                  (Write.log _))
        ]
      ]
      rows none ea et = done
      rows (some order) none et = done
      rows (some order) (some agent) none = done

  release_hold-Writes : (a j message : String) (db : Db) → Writes P db (release_hold a j message db)
  unfolding release_hold release_found give_back add_status_audit add_provider_audit
  release_hold-Writes a j message db =
      rows (scalar (order_by_id j) db.orders) (scalar (agent_by_id a) db.agents)
        (scalar (for_order j) db.transactions)
    where
      rows :
          (eo : Option Order) (ea : Option Agent) (et : Option BalanceTransaction)
          → Writes P db (release_found eo ea et message db)
      rows (some order) (some agent) (some t) = elim (Bool-cases (is_held t.status)) [
        | inl held ↦ rw held (
            more
              (more
                (more
                  (more (more done (Write.mark_booked order.id))
                    (Write.set_status (for_order order.id) released))
                  (Write.set_agent (agent_by_id agent.id) (credit t.amount) (λ x. refl)
                    (λ x. refl)))
                (Write.log _))
              (Write.log _))
        | inr other ↦ rw other done
      ]
      rows none ea et = done
      rows (some order) none et = done
      rows (some order) (some agent) none = done

  pub finish_issue-Writes :
      (a j key : String) (n : ℕ) (outcome : Outcome ProviderTicket) (db : Db)
      → Writes P db (finish_issue a j key n outcome db).1
  unfolding finish_issue
  finish_issue-Writes a j key n (returned ticket) db = complete_issue-Writes a j key ticket n db
  finish_issue-Writes a j key n (raised message class) db = release_hold-Writes a j _ db
  finish_issue-Writes a j key n (timed_out message) db = release_hold-Writes a j _ db
