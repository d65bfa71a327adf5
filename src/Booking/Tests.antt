-- ===== src/Booking/Tests.antt =====
-- Runs of the booking service on the data of `Fixture`, as tests/test_booking.py makes them, and
-- each theorem at an input that meets its hypotheses.
use mathlib.Core.Option
use ioka.Prelude.{String, ℕ, ◌≡◌, refl, some, List, [], ◌∷◌}
use ioka.Prelude.Int.{pos, ◌+ℤ◌, ◌-ℤ◌}
use ioka.Prelude.Rows.{scalar, modify}
use ioka.Audit.{add_status_audit, add_provider_audit}
use ioka.Domain.Enums.{issuing, captured, released, issued}
use ioka.Domain.Provider.{AirlineProvider, returned}
use ioka.Exceptions.{Result, ok}
use ioka.Models.{Db, Agent, Order, BalanceTransaction, agent_by_id, owned_order}
use ioka.Booking.Issue.{begin_issue}
use ioka.Booking.Settle.{
  Issued, issue_with, issue_order, finish_issue, complete_issue, release_hold,
}
use ioka.Booking.Settle.Replay.{issue_order-issue_order}
use ioka.Booking.Ledger.{IsLedger, IsLedger-empty, funds}
use ioka.Booking.Ledger.Store.{stored-IsLedger}
use ioka.Booking.Concurrent.{System, Event, request, answer, step, run}
use ioka.Booking.Concurrent.Sequential.{issue_order-funds}
use ioka.Booking.Concurrent.Lapse.{capture_of_released, Unpaid}
use ioka.Fixture.{
  fresh_db, booked_db, agent, order, booking, ticket, unavailable, constant_provider,
}

booked_db-IsLedger : IsLedger booked_db
booked_db-IsLedger =
    stored-IsLedger order fresh_db booked_db (IsLedger-empty fresh_db refl refl) refl refl refl refl

abbrev start : System
start = record { db = booked_db; flights = [] }

-- Two requests for one order with one key: the first hold is released when the first call fails,
-- and the second call's ticket is then issued with the whole balance back.
abbrev race : List Event
race =
    request "agent-1" "order-1" "issue-key-1"
    ∷ request "agent-1" "order-1" "issue-key-1"
    ∷ answer 0 5 unavailable
    ∷ answer 0 5 (returned ticket)
    ∷ []

race_issues_for_free :
    let db = (run race start).db in
    (Option.map (λ o. o.status) (scalar (owned_order "agent-1" "order-1") db.orders) ≡ some issued)
    × (Option.map (λ g. g.balance) (scalar (agent_by_id "agent-1") db.agents) ≡ some agent.balance)
unfolding run step begin_issue finish_issue complete_issue release_hold scalar modify ◌+ℤ◌ ◌-ℤ◌
    add_status_audit add_provider_audit
race_issues_for_free = (refl, refl)

-- One request, failed, and then another that succeeds.
abbrev retry : List Event
retry =
    request "agent-1" "order-1" "issue-key-1"
    ∷ answer 0 5 unavailable
    ∷ request "agent-1" "order-1" "issue-key-1"
    ∷ answer 0 5 (returned ticket)
    ∷ []

retry_pays_once :
    let db = (run retry start).db in
    Option.map (λ g. g.balance) (scalar (agent_by_id "agent-1") db.agents) ≡ some (pos 400000000)
unfolding run step begin_issue finish_issue complete_issue release_hold scalar modify ◌+ℤ◌ ◌-ℤ◌
    add_status_audit add_provider_audit
retry_pays_once = refl

abbrev lapsed : BalanceTransaction
lapsed = record {
  agent_id = "agent-1";
  order_id = "order-1";
  idempotency_key = "issue-key-1";
  amount = pos 100000000;
  currency = "UZS";
  status = released;
}

abbrev lapsed_db : Db
lapsed_db = record booked_db { transactions = lapsed ∷ [] }

capture_of_released_example :
    Unpaid ticket order agent lapsed lapsed_db
      (complete_issue "agent-1" "order-1" "issue-key-1" ticket 5 lapsed_db)
unfolding scalar
capture_of_released_example =
    capture_of_released "agent-1" "order-1" "issue-key-1" ticket 5 lapsed_db order agent lapsed refl
      refl refl refl refl refl

abbrev hopeful : AirlineProvider ℕ
hopeful = constant_provider (returned booking) (returned ticket)

abbrev issued_once : Result Issued × Db × ℕ
issued_once = issue_order hopeful "agent-1" "order-1" "issue-key-1" 5 booked_db 0

abbrev issued_order : Order
issued_order =
    issue_with ticket
      (record order { status = issuing; issue_idempotency_key = some "issue-key-1" })

abbrev charged : Agent
charged = record agent { balance = pos 400000000 }

issue_succeeds : issued_once ≡ (ok (issued_order, charged, captured), issued_once.1, 1)
unfolding issue_order begin_issue finish_issue complete_issue scalar modify ◌-ℤ◌ add_status_audit
    add_provider_audit
issue_succeeds = refl

issue_order-issue_order_example :
    issue_order hopeful "agent-1" "order-1" "issue-key-2" 7 issued_once.1 1
    ≡ (ok (issued_order, charged, captured), issued_once.1, 1)
issue_order-issue_order_example =
    issue_order-issue_order hopeful "agent-1" "order-1" "issue-key-1" 5 booked_db 0 issue_succeeds
      "issue-key-2" 7 1

issue_order-funds_example :
    IsLedger issued_once.1 × ((b : String) → funds b issued_once.1 ≡ funds b booked_db)
issue_order-funds_example =
    issue_order-funds hopeful "agent-1" "order-1" "issue-key-1" 5 booked_db 0 booked_db-IsLedger
