-- ===== src/Booking/Settle.antt =====
-- `BookingService.issue_order` after the provider's call: the session that captures the hold,
-- `_release_hold`, and the whole of `issue_order`.
pub mod Replay
use ioka.Prelude.{ℕ, String, Bool, Option, none, some, ◌==◌, ◌&&◌, not, is_text, if◌then◌else◌}
use ioka.Prelude.Lists.{any}
use ioka.Prelude.Rows.{scalar, modify}
use ioka.Json.{text, nil, field}
use ioka.Domain.Enums.{
  PaymentStatus, booked, issued, captured, released, order_text, is_issued, is_held,
}
use ioka.Domain.Provider.{AirlineProvider, ProviderTicket, Outcome, returned, failure_text}
use ioka.Exceptions.{
  Result, ok, err, error, integrity_error, not_found, provider_error, ◌>>=◌, ◌>>◌, raise_if,
  or_raise,
}
use ioka.Models.{
  Db, Agent, Order, BalanceTransaction, agent_by_id, order_by_id, owned_order, for_order,
}
use ioka.Audit.{add_status_audit, add_provider_audit, ProviderCall}
use ioka.Booking.Issue.{
  Began, already, started, credit, set_payment, commit_or_rollback, begin_issue,
}

abbrev pub Issued : Type 0
Issued = Order × Agent × PaymentStatus

abbrev pub issue_with : ProviderTicket → Order → Order
issue_with ticket o = record o {
  status = issued;
  ticket_number = some ticket.ticket_number;
  issued_at = some ticket.issued_at;
}

-- The unique column `ticket_number`, over the other orders.
abbrev pub ticket_taken : ProviderTicket → Order → Db → Bool
ticket_taken ticket order db =
    any (λ o. not (o.id == order.id) && is_text ticket.ticket_number o.ticket_number) db.orders

abbrev pub issue_call : String → ProviderTicket → ℕ → Order → ProviderCall
issue_call key ticket duration_ms order = record {
  action = "issue";
  entity_type = "order";
  entity_id = order.id;
  request_payload = field "idempotency_key" (text key) nil;
  response_payload = some (field "ticket_number" (text ticket.ticket_number) nil);
  duration_ms = duration_ms;
  status_code = 200;
  error_message = none;
}

-- The writes of an issue that is not done yet.
unfoldable pub captured_db : String → ProviderTicket → ℕ → Order → Agent → Db → Db
captured_db key ticket duration_ms order agent db =
    add_status_audit "order" order.id "issue_completed" (some (order_text order.status))
      (order_text issued)
      (add_provider_audit (issue_call key ticket duration_ms order) (record db {
        orders = modify (owned_order agent.id order.id) (issue_with ticket) db.orders;
        transactions = modify (for_order order.id) (set_payment captured) db.transactions;
      }))

unfoldable pub capture : String → ProviderTicket → ℕ → Order → Agent → Db → Result (Issued × Db)
unfolding captured_db
capture key ticket duration_ms order agent db = do
  raise_if (ticket_taken ticket order db) integrity_error
  ok ((issue_with ticket order, agent, captured), captured_db key ticket duration_ms order agent db)

-- the session on the rows that its three queries lock
unfoldable pub complete_found :
    Option Order
    → Option Agent
    → Option BalanceTransaction
    → String
    → ProviderTicket
    → ℕ
    → Db
    → Result (Issued × Db)
unfolding capture
complete_found (some order) (some agent) (some t) key ticket duration_ms db =
    if is_issued order.status
    then ok ((order, agent, t.status), db)
    else capture key ticket duration_ms order agent db
complete_found _ _ _ key ticket duration_ms db = err (error not_found "Issue state not found")

unfoldable pub complete_issue :
    String → String → String → ProviderTicket → ℕ → Db → Result Issued × Db
unfolding complete_found
complete_issue agent_id order_id key ticket duration_ms db = commit_or_rollback db (
    complete_found (scalar (owned_order agent_id order_id) db.orders)
      (scalar (agent_by_id agent_id) db.agents) (scalar (for_order order_id) db.transactions) key
      ticket duration_ms db)

abbrev pub book_again : Order → Order
book_again o = record o { status = booked }

-- The writes of `_release_hold`, where order, agent and transaction are there.
unfoldable pub give_back : Order → Agent → BalanceTransaction → String → Db → Db
give_back order agent t message db =
    add_status_audit "order" order.id "issue_failed" (some (order_text order.status))
      (order_text booked)
      (add_provider_audit call (record db {
        agents = modify (agent_by_id agent.id) (credit t.amount) db.agents;
        orders = modify (order_by_id order.id) book_again db.orders;
        transactions = modify (for_order order.id) (set_payment released) db.transactions;
      }))
  where
    call : ProviderCall
    call = record {
      action = "issue";
      entity_type = "order";
      entity_id = order.id;
      request_payload = field "idempotency_key" (text t.idempotency_key) nil;
      response_payload = none;
      duration_ms = 0;
      status_code = 502;
      error_message = some message;
    }

-- `if order and agent and transaction and transaction.status == HELD`
unfoldable pub release_found :
    Option Order → Option Agent → Option BalanceTransaction → String → Db → Db
unfolding give_back
release_found (some order) (some agent) (some t) message db =
    if is_held t.status then give_back order agent t message db else db
release_found _ _ _ message db = db

unfoldable pub release_hold : String → String → String → Db → Db
unfolding release_found
release_hold agent_id order_id message db =
    release_found (scalar (order_by_id order_id) db.orders)
      (scalar (agent_by_id agent_id) db.agents) (scalar (for_order order_id) db.transactions)
      message db

-- What follows the provider's answer.
unfoldable pub finish_issue :
    String → String → String → ℕ → Outcome ProviderTicket → Db → Result Issued × Db
finish_issue agent_id order_id key duration_ms (returned ticket) db =
    complete_issue agent_id order_id key ticket duration_ms db
finish_issue agent_id order_id key duration_ms failure db = (
  err (error provider_error "Airline provider failed to issue the ticket"),
  release_hold agent_id order_id (failure_text failure) db,
)

module _ {S : Type 0} (provider : AirlineProvider S) where
  unfoldable pub call_issue :
      String → String → String → ℕ → Result Began → Db → S → Result Issued × Db × S
  call_issue agent_id order_id key duration_ms (err e) db s = (err e, db, s)
  call_issue agent_id order_id key duration_ms (ok (already order agent)) db s =
      (ok (order, agent, captured), db, s)
  call_issue agent_id order_id key duration_ms (ok (started booking_id)) db s =
      let (answer, s') = provider.issue booking_id key s in
      let (result, db') = finish_issue agent_id order_id key duration_ms answer db in
      (result, db', s')

  unfoldable pub issue_order : String → String → String → ℕ → Db → S → Result Issued × Db × S
  unfolding call_issue
  issue_order agent_id order_id key duration_ms db s =
      let (began, db') = begin_issue agent_id order_id key db in
      call_issue agent_id order_id key duration_ms began db' s
