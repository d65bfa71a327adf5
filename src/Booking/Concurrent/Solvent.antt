-- ===== src/Booking/Concurrent/Solvent.antt =====
-- Balances and amounts that are not negative.
pub mod Begin
pub mod Finish
pub mod Schedules
use ioka.Prelude.{
  ℕ, ◌≡◌, ◌≢◌, refl, sym, ap, ◌∙◌, String, Bool, true, false, Option, none, some, List, [], ◌∷◌,
  ◌++◌, ◌==◌, inl, inr, arith, eq_of_test, Bool-cases, Option-cases, some-injective,
}
use mathlib.Core.Path.{subst}
use ioka.Prelude.Int.{ℤ, pos, ◌+ℤ◌, ◌-ℤ◌, ◌≤ℤ◌, ltb_ℤ, int_laws}
use ioka.Prelude.Lists.{get_elem?, any}
use ioka.Prelude.Rows.{scalar, modify, scalar-holds}
use ioka.Prelude.Each.{Each, Each-append, Each-scalar, Each-modify, Each-modify_found}
use ioka.Domain.Enums.{held, booked, is_issued, is_held, is_released}
use ioka.Domain.Provider.{
  ProviderBooking, ProviderTicket, Outcome, returned, raised, timed_out, failure_text,
}
use ioka.Exceptions.{
  Result, ok, err, integrity_error, error, not_found, ok-injective, raise_if-ok, or_raise-ok,
  bind-ok,
}
use ioka.Audit.{add_status_audit, add_provider_audit}
use ioka.Models.{
  Db, Agent, Order, BalanceTransaction, Offer, Moment, agent_by_id, order_by_id, owned_order,
  for_order,
}
use ioka.Schemas.{OrderCreate}
use ioka.Booking.Idempotency.{recorded}
use ioka.Booking.Create.{same_order, new_order, add_booking, save_order}
use ioka.Booking.Issue.{
  Began, already, started, debit, credit, set_payment, start_issuing, new_hold, short_of_funds,
  short_again, add_hold, hold_again, hold_key_taken, hold_funds, issue_key_taken, issuing_marked,
  mark_issuing, key_conflict, other_key, begin_locked, begin_found, begin_issue, commit_or_rollback,
}
use ioka.Booking.Settle.{
  Issued, issue_with, ticket_taken, captured_db, capture, complete_found, complete_issue,
  book_again, give_back, release_found, release_hold, finish_issue,
}
use ioka.Booking.Concurrent.{Flight, System, Event, request, answer, store, launch, land, step, run}

abbrev pub HasFunds : Agent → Type 0
HasFunds a = pos 0 ≤ℤ a.balance

abbrev pub IsPriced : Order → Type 0
IsPriced o = pos 0 ≤ℤ o.amount

abbrev pub IsPaid : BalanceTransaction → Type 0
IsPaid t = pos 0 ≤ℤ t.amount

-- No balance and no amount is negative.
pub record IsSolvent (db : Db) : Type 0 where
  pub balances : Each HasFunds db.agents
  pub prices : Each IsPriced db.orders
  pub payments : Each IsPaid db.transactions

pub own_agent :
    (a : String) (agents : List Agent) (agent : Agent)
    → scalar (agent_by_id a) agents ≡ some agent
    → scalar (agent_by_id agent.id) agents ≡ some agent
own_agent a agents agent e =
    subst (λ k. scalar (agent_by_id k) agents ≡ some agent)
      (sym (eq_of_test agent.id a (scalar-holds (agent_by_id a) agents agent e))) e
