-- ===== src/Routes/Handlers/Orders.antt =====
-- What an agent gets from the handlers after it has made or issued an order.
use ioka.Prelude.{ℕ, ◌≡◌, refl, ap, String, true, some, Option-cases, inl, inr}
use mathlib.Core.Path.{subst}
use ioka.Prelude.Rows.{scalar}
use ioka.Bytes.{TextMethods}
use ioka.Domain.Enums.{PaymentStatus, OrderStatus, issued, is_issued, order_text}
use ioka.Json.{Fields}
use ioka.Schemas.{OrderCreate}
use ioka.Schemas.Validation.{validate_order}
use ioka.Schemas.Responses.{OrderOut}
use ioka.Models.{Moment}
use ioka.Booking.Create.{create_order}
use ioka.Booking.Create.Replay.{create_order-create_order}
use ioka.Routes.Handlers.{both, create_order_handler}
use ioka.Domain.Provider.{AirlineProvider}
use ioka.Exceptions.{Result, ok, err}
use ioka.Models.{Db, Agent, Order, agent_by_id}
use ioka.Schemas.Validation.{idempotency_key_field}
use ioka.Schemas.Responses.{IssueResult, Timestamps, order_out}
use ioka.Booking.Create.{get_order}
use ioka.Booking.Settle.{Issued, issue_order}
use ioka.Booking.Settle.Replay.{issue_order-IsRecorded, issue_order-issue_order, IsRecorded}
use ioka.Routes.Handlers.{
  Answer, answered, unprocessable, answer_with, regroup, issue_result, issue_order_handler,
  get_order_handler,
}

-- What further requests of the agent about its issued order answer.
pub record IsSettled {S : Type 0} (provider : AirlineProvider S) (times : Timestamps)
    (order_id : String) (agent : Agent) (given : IssueResult) (db : Db) : Type 0 where
  pub is_issued : given.order.status ≡ "ISSUED"
  pub order : get_order_handler times order_id db (ok agent) ≡ answered given.order
  pub stored : Agent
  pub is_stored : scalar (agent_by_id agent.id) db.agents ≡ some stored
  pub balance : stored.balance ≡ given.balance
  pub again :
      (next_key : String) (m : ℕ) (t : S)
      → idempotency_key_field next_key ≡ some next_key
      → issue_order_handler provider times m order_id next_key (ok agent) (db, t)
        ≡ (answered (record given { payment_status = "CAPTURED" }), (db, t))

issued_text : (status : OrderStatus) → is_issued status ≡ true → order_text status ≡ "ISSUED"
issued_text issued h = refl
issued_text OrderStatus.booked h = cc
issued_text OrderStatus.issuing h = cc
issued_text OrderStatus.cancelled h = cc

answered-injective : {A : Type 0} (x y : A) → answered x ≡ answered y → x ≡ y
answered-injective x y e = cc

-- What was answered is what the service returned.
answer_with-answered :
    {A B S : Type 0} (f : A → B) (r : Result A × Db × S) {b : B} {db : Db} {s : S}
    → answer_with f (regroup r) ≡ (answered b, (db, s))
    → (a : A) × (r ≡ (ok a, db, s)) × (f a ≡ b)
answer_with-answered f (ok a, d, t) e =
    (a, ap (λ w. (ok a, w.1.0, w.1.1)) e, answered-injective _ _ (ap (λ w. w.0) e))
answer_with-answered f (err x, d, t) e = cc

unprocessed :
    {A W : Type 0} {w w' : W} {a : A}
    → ◌≡◌ {A = Answer A × W} (unprocessable, w) (answered a, w')
    → ⊥
unprocessed e = cc

module _ {S : Type 0} (provider : AirlineProvider S) (times : Timestamps) where
  issued_order :
      (n : ℕ) (order_id key : String) (agent : Agent) (db : Db) (s : S) {given : IssueResult}
      {db' : Db} {s' : S}
      → issue_order_handler provider times n order_id key (ok agent) (db, s)
        ≡ (answered given, (db', s'))
      → (valid : String) × (answer : Issued) × (issue_order provider agent.id order_id valid n db s
          ≡ (ok answer, db', s'))
        × (issue_result times answer ≡ given)
  unfolding issue_order_handler
  issued_order n order_id key agent db s e = elim (Option-cases (idempotency_key_field key)) [
    | inl short ↦ absurd (unprocessed (rw short at e))
    | inr (valid, long) ↦
        let (answer, ran, same) =
          answer_with-answered (issue_result times)
            (issue_order provider agent.id order_id valid n db s) (rw long at e) in
        (valid, answer, ran, same)
  ]

  settled :
      (n : ℕ) (order_id key : String) (agent : Agent) (db : Db) (s : S) (order : Order)
      (owner : Agent) (payment : PaymentStatus) (db' : Db) (s' : S)
      → issue_order provider agent.id order_id key n db s ≡ (ok (order, owner, payment), db', s')
      → IsSettled provider times order_id agent (issue_result times (order, owner, payment)) db'
  unfolding issue_order_handler get_order_handler issue_result order_out get_order
  settled n order_id key agent db s order owner payment db' s' ran =
      let (found, stored, done) =
        subst (λ (r : Result Issued × Db × S). IsRecorded agent.id order_id (r.0, r.1)) ran
          (issue_order-IsRecorded provider agent.id order_id key n db s) in
      record {
        is_issued = issued_text order.status done;
        order = rw found refl;
        stored = owner;
        is_stored = stored;
        balance = refl;
        again = λ next_key m t valid.
            let repeated =
              issue_order-issue_order provider agent.id order_id key n db s ran next_key m t in
            rw (valid, repeated) refl;
      }

  -- After a POST that issued an order was answered: getting the order answers the same order, ISSUED;
  -- the agent's row has the balance of the answer; and every further POST with a valid key answers
  -- the same order and balance, CAPTURED, and changes neither the database nor the provider.
  pub issue_order_handler-IsSettled :
      (n : ℕ) (order_id key : String) (agent : Agent) (db : Db) (s : S) (given : IssueResult)
      (db' : Db) (s' : S)
      → issue_order_handler provider times n order_id key (ok agent) (db, s)
        ≡ (answered given, (db', s'))
      → IsSettled provider times order_id agent given db'
  issue_order_handler-IsSettled n order_id key agent db s given db' s' e =
      let (valid, (order, owner, payment), ran, is_given) =
        issued_order n order_id key agent db s e in
      subst (λ r. IsSettled provider times order_id agent r db') is_given
        (settled n order_id valid agent db s order owner payment db' s' ran)

module _ {S : Type 0} (provider : AirlineProvider S) (request_hash : Fields → String)
    (methods : TextMethods) (times : Timestamps) where
  -- After a POST that made an order was answered, the agent's POST with the same body and the same
  -- key is answered the same at any later time; it changes neither the database nor the provider.
  pub create_order_handler-create_order_handler :
      (at : Moment) (body : OrderCreate) (key : String) (agent : Agent) (db : Db) (s : S)
      (given : OrderOut) (db' : Db) (s' : S)
      → create_order_handler provider request_hash methods times at body key (ok agent) (db, s)
        ≡ (answered given, (db', s'))
      → (later : Moment) (t : S)
      → create_order_handler provider request_hash methods times later body key (ok agent) (db', t)
        ≡ (answered given, (db', t))
  unfolding create_order_handler
  create_order_handler-create_order_handler at body key agent db s given db' s' e later t =
      elim (Option-cases (both (validate_order methods body) (idempotency_key_field key))) [
        | inl wrong ↦ absurd (unprocessed (rw wrong at e))
        | inr ((payload, valid), right) ↦
            let (order, ran, same) =
              answer_with-answered (order_out times)
                (create_order provider request_hash at agent.id payload valid db s)
                (rw right at e) in
            let again =
              create_order-create_order provider request_hash at agent.id payload valid db s ran
                later t in
            rw (right, again, ← same) refl
      ]
