-- ===== src/Application/History.antt =====
-- What is stored stays: no session deletes a row, or changes the key of one, and the audit rows are
-- only added to.
use ioka.Prelude.{◌≡◌, refl, sym, ◌∙◌, String, Bool, true, [], ◌∷◌, ◌++◌, List, ◌==◌}
use mathlib.Core.List.{append_assoc, append-nil}
use ioka.Prelude.Lists.{any}
use ioka.Prelude.Keys.{any-append_left, any-modify}
use ioka.Models.{Db, Offer, BalanceTransaction, AuditLog, agent_by_id, search_by_id, order_by_id}
use ioka.Booking.Idempotency.{recorded}
use ioka.Booking.Issue.{set_payment, start_issuing}
use ioka.Booking.Settle.{issue_with, book_again}
use ioka.Application.Writes.{Write, Writes, done, more}

abbrev pub offer_with_id : String → Offer → Bool
offer_with_id k o = o.id == k

-- the unique `idempotency_key` of a balance transaction
abbrev pub paid_with : String → BalanceTransaction → Bool
paid_with key t = t.idempotency_key == key

-- Each row that is stored is found again under its key.
pub record Keeps (db db' : Db) : Type 0 where
  pub agents :
      (k : String) → any (agent_by_id k) db.agents ≡ true → any (agent_by_id k) db'.agents ≡ true
  pub searches :
      (k : String)
      → any (search_by_id k) db.searches ≡ true
      → any (search_by_id k) db'.searches ≡ true
  pub offers :
      (k : String)
      → any (offer_with_id k) db.offers ≡ true
      → any (offer_with_id k) db'.offers ≡ true
  pub orders :
      (k : String) → any (order_by_id k) db.orders ≡ true → any (order_by_id k) db'.orders ≡ true
  pub transactions :
      (k : String)
      → any (paid_with k) db.transactions ≡ true
      → any (paid_with k) db'.transactions ≡ true
  pub idempotency_records :
      (a scope k : String)
      → any (recorded a scope k) db.idempotency_records ≡ true
      → any (recorded a scope k) db'.idempotency_records ≡ true
  pub audit_logs : (rows : List AuditLog) × (db'.audit_logs ≡ db.audit_logs ++ rows)

module _ (P : Offer → Type 0) (db : Db) where
  agents-keep :
      (db' : Db) (k : String)
      → Write P db db'
      → any (agent_by_id k) db.agents ≡ true
      → any (agent_by_id k) db'.agents ≡ true
  agents-keep db' k (Write.add_agent agent a b) h =
      any-append_left (agent_by_id k) db.agents (agent ∷ []) h
  agents-keep db' k (Write.set_agent p f ids emails) h =
      any-modify p (agent_by_id k) f db.agents (λ x. rw (ids x)) ∙ h
  agents-keep db' k other h = h

  searches-keep :
      (db' : Db) (k : String)
      → Write P db db'
      → any (search_by_id k) db.searches ≡ true
      → any (search_by_id k) db'.searches ≡ true
  searches-keep db' k (Write.add_search search a b) h =
      any-append_left (search_by_id k) db.searches (search ∷ []) h
  searches-keep db' k (Write.set_search p f ids agents) h =
      any-modify p (search_by_id k) f db.searches (λ x. rw (ids x)) ∙ h
  searches-keep db' k other h = h

  offers-keep :
      (db' : Db) (k : String)
      → Write P db db'
      → any (offer_with_id k) db.offers ≡ true
      → any (offer_with_id k) db'.offers ≡ true
  offers-keep db' k (Write.add_offer offer allowed a b) h =
      any-append_left (offer_with_id k) db.offers (offer ∷ []) h
  offers-keep db' k other h = h

  orders-keep :
      (db' : Db) (k : String)
      → Write P db db'
      → any (order_by_id k) db.orders ≡ true
      → any (order_by_id k) db'.orders ≡ true
  orders-keep db' k (Write.add_order order a b c d e) h =
      any-append_left (order_by_id k) db.orders (order ∷ []) h
  orders-keep db' k (Write.mark_issuing a j key free) h =
      any-modify _ (order_by_id k) (start_issuing key) db.orders (λ x. refl) ∙ h
  orders-keep db' k (Write.mark_issued a j ticket free) h =
      any-modify _ (order_by_id k) (issue_with ticket) db.orders (λ x. refl) ∙ h
  orders-keep db' k (Write.mark_booked j) h =
      any-modify _ (order_by_id k) book_again db.orders (λ x. refl) ∙ h
  orders-keep db' k other h = h

  transactions-keep :
      (db' : Db) (k : String)
      → Write P db db'
      → any (paid_with k) db.transactions ≡ true
      → any (paid_with k) db'.transactions ≡ true
  transactions-keep db' k (Write.add_payment t a b c) h =
      any-append_left (paid_with k) db.transactions (t ∷ []) h
  transactions-keep db' k (Write.set_status p status) h =
      any-modify p (paid_with k) (set_payment status) db.transactions (λ x. refl) ∙ h
  transactions-keep db' k other h = h

  records-keep :
      (db' : Db) (a scope k : String)
      → Write P db db'
      → any (recorded a scope k) db.idempotency_records ≡ true
      → any (recorded a scope k) db'.idempotency_records ≡ true
  records-keep db' a scope k (Write.add_record r stored free) h =
      any-append_left (recorded a scope k) db.idempotency_records (r ∷ []) h
  records-keep db' a scope k other h = h

  audit_logs-keep :
      (db' : Db)
      → Write P db db'
      → (rows : List AuditLog) × (db'.audit_logs ≡ db.audit_logs ++ rows)
  audit_logs-keep db' (Write.log row) = (row ∷ [], refl)
  audit_logs-keep db' other = ([], sym (append-nil db.audit_logs))

  write-Keeps : (db' : Db) → Write P db db' → Keeps db db'
  write-Keeps db' w = record {
    agents = λ k. agents-keep db' k w;
    searches = λ k. searches-keep db' k w;
    offers = λ k. offers-keep db' k w;
    orders = λ k. orders-keep db' k w;
    transactions = λ k. transactions-keep db' k w;
    idempotency_records = λ a scope k. records-keep db' a scope k w;
    audit_logs = audit_logs-keep db' w;
  }

pub Keeps-refl : (db : Db) → Keeps db db
Keeps-refl db = record {
  agents = λ k h. h;
  searches = λ k h. h;
  offers = λ k h. h;
  orders = λ k h. h;
  transactions = λ k h. h;
  idempotency_records = λ a scope k h. h;
  audit_logs = ([], sym (append-nil db.audit_logs));
}

pub Keeps-trans : (db db1 db2 : Db) → Keeps db db1 → Keeps db1 db2 → Keeps db db2
Keeps-trans db db1 db2 u v = record {
  agents = λ k h. v.agents k (u.agents k h);
  searches = λ k h. v.searches k (u.searches k h);
  offers = λ k h. v.offers k (u.offers k h);
  orders = λ k h. v.orders k (u.orders k h);
  transactions = λ k h. v.transactions k (u.transactions k h);
  idempotency_records =
      λ a scope k h. v.idempotency_records a scope k (u.idempotency_records a scope k h);
  audit_logs =
      let (rows, e) = u.audit_logs in
      let (rows', e') = v.audit_logs in
      (rows ++ rows', e' ∙ rw e (append_assoc db.audit_logs rows rows'));
}

pub Writes-Keeps : {P : Offer → Type 0} {db db' : Db} → Writes P db db' → Keeps db db'
Writes-Keeps done = Keeps-refl _
Writes-Keeps (more ws w) = Keeps-trans _ _ _ (Writes-Keeps ws) (write-Keeps _ _ _ w)
