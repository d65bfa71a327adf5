-- ===== src/Booking/Issue.antt =====
-- `BookingService.issue_order`: the session that holds the money, the provider's call, and the
-- session that captures it, or `_release_hold`. Each session locks the rows that it reads
-- (`with_for_update`), so it runs as one step on the database.
use ioka.Prelude.{
  String, Bool, Option, none, some, [], ◌∷◌, ◌++◌, ◌==◌, ◌&&◌, not, truthy, is_text, if◌then◌else◌,
}
use ioka.Prelude.Int.{ℤ, ◌+ℤ◌, ◌-ℤ◌, ltb_ℤ}
use ioka.Prelude.Lists.{any}
use ioka.Prelude.Rows.{scalar, modify}
use ioka.Json.{amount, nil, field}
use ioka.Domain.Enums.{PaymentStatus, issuing, held, order_text, is_issued, is_released}
use ioka.Exceptions.{
  Result, ok, err, Exception, app, error, integrity_error, not_found, conflict,
  insufficient_balance, ◌>>=◌, ◌>>◌, raise_if, or_raise,
}
use ioka.Models.{Db, Agent, Order, BalanceTransaction, agent_by_id, owned_order, for_order}
use ioka.Audit.{add_status_audit}

-- `agent.balance -= x` and `agent.balance += x`
abbrev pub debit : ℤ → Agent → Agent
debit x a = record a { balance = a.balance -ℤ x }

abbrev pub credit : ℤ → Agent → Agent
credit x a = record a { balance = a.balance +ℤ x }

abbrev pub set_payment : PaymentStatus → BalanceTransaction → BalanceTransaction
set_payment status t = record t { status = status }

-- `order.status = ISSUING; order.issue_idempotency_key = idempotency_key`
abbrev pub start_issuing : String → Order → Order
start_issuing key o = record o { status = issuing; issue_idempotency_key = some key }

unfoldable pub new_hold : String → String → Order → BalanceTransaction
new_hold agent_id key order = record {
  agent_id = agent_id;
  order_id = order.id;
  idempotency_key = key;
  amount = order.amount;
  currency = order.currency;
  status = held;
}

-- The two ways in which a hold is refused; only the first gives the amounts.
abbrev pub short_of_funds : Agent → Order → Exception
short_of_funds agent order = app (record {
  class = insufficient_balance;
  message = "Agent balance is insufficient";
  details = field "balance" (amount agent.balance) (field "required" (amount order.amount) nil);
})

abbrev pub short_again : Exception
short_again = error insufficient_balance "Agent balance is insufficient"

-- `agent.balance -= order.amount`, with a new balance transaction that is held
unfoldable pub add_hold : Agent → Order → String → Db → Db
unfolding new_hold
add_hold agent order key db = record db {
  agents = modify (agent_by_id agent.id) (debit order.amount) db.agents;
  transactions = db.transactions ++ new_hold agent.id key order ∷ [];
}

-- the same, with the released transaction of an earlier try
unfoldable pub hold_again : Agent → Order → Db → Db
hold_again agent order db = record db {
  agents = modify (agent_by_id agent.id) (debit order.amount) db.agents;
  transactions = modify (for_order order.id) (set_payment held) db.transactions;
}

-- The unique column `idempotency_key` of the balance transactions.
abbrev pub hold_key_taken : String → Db → Bool
hold_key_taken key db = any (λ t. t.idempotency_key == key) db.transactions

-- The branches on the order's balance transaction. The unique idempotency key of a new one is
-- checked by the database at the commit, which nothing of the session outlives.
unfoldable pub hold_funds : Agent → Order → String → Option BalanceTransaction → Db → Result Db
unfolding add_hold hold_again
hold_funds agent order key none db = do
  raise_if (ltb_ℤ agent.balance order.amount) (short_of_funds agent order)
  raise_if (hold_key_taken key db) integrity_error
  ok (add_hold agent order key db)
hold_funds agent order key (some t) db =
    if is_released t.status
    then (do
      raise_if (ltb_ℤ agent.balance order.amount) short_again
      ok (hold_again agent order db))
    else ok db

-- The unique column `issue_idempotency_key`, over the other orders.
abbrev pub issue_key_taken : String → Order → Db → Bool
issue_key_taken key order db =
    any (λ o. not (o.id == order.id) && is_text key o.issue_idempotency_key) db.orders

-- The first session ends with an order that is already issued, or with the booking to issue.
pub data Began : Type 0 where
  already : Order → Agent → Began
  started : String → Began

unfoldable pub issuing_marked : Agent → Order → String → Db → Db
issuing_marked agent order key db =
    add_status_audit "order" order.id "issue_started" (some (order_text order.status))
      (order_text issuing)
      (record db { orders = modify (owned_order agent.id order.id) (start_issuing key) db.orders })

unfoldable pub mark_issuing : Agent → Order → String → Db → Result (Began × Db)
unfolding issuing_marked
mark_issuing agent order key db = do
  raise_if (issue_key_taken key order db) integrity_error
  ok (started order.provider_booking_id, issuing_marked agent order key db)

abbrev pub key_conflict : Exception
key_conflict = error conflict "Order issue is already being processed with another idempotency key"

-- `order.issue_idempotency_key and order.issue_idempotency_key != idempotency_key`
abbrev pub other_key : String → Order → Bool
other_key key order =
    truthy order.issue_idempotency_key && not (is_text key order.issue_idempotency_key)

unfoldable pub begin_locked :
    Agent → Order → String → Option BalanceTransaction → Db → Result (Began × Db)
unfolding hold_funds mark_issuing
begin_locked agent order key transaction db =
    if is_issued order.status then ok (already order agent, db) else (do
      raise_if (other_key key order) key_conflict
      db' ← hold_funds agent order key transaction db
      mark_issuing agent order key db')

-- An exception in a session rolls it back.
abbrev pub commit_or_rollback : {A : Type 0} → Db → Result (A × Db) → Result A × Db
commit_or_rollback db (ok (a, db')) = (ok a, db')
commit_or_rollback db (err e) = (err e, db)

-- the session on the rows that its two queries lock
unfoldable pub begin_found : Option Order → Option Agent → String → Db → Result (Began × Db)
unfolding begin_locked
begin_found found found_agent key db = do
  order ← or_raise found (error not_found "Order not found")
  agent ← or_raise found_agent (error not_found "Agent not found")
  begin_locked agent order key (scalar (for_order order.id) db.transactions) db

unfoldable pub begin_issue : String → String → String → Db → Result Began × Db
unfolding begin_found
begin_issue agent_id order_id key db = commit_or_rollback db (
    begin_found (scalar (owned_order agent_id order_id) db.orders)
      (scalar (agent_by_id agent_id) db.agents) key db)
