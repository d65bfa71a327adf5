-- ===== src/Booking/Concurrent/Exclusive.antt =====
-- Money under schedules in which no two flights work on one order at once.
use mathlib.Core.Option
use mathlib.Core.Path.{subst}
use ioka.Prelude.{
  ℕ, String, ◌≡◌, refl, ap, ◌∙◌, false, Option, none, some, List, [], ◌∷◌, inl, inr, arith,
}
use ioka.Prelude.Lists.{any, get_elem?}
use ioka.Prelude.Rows.{scalar}
use ioka.Domain.Enums.{held, is_released}
use ioka.Domain.Provider.{ProviderTicket, Outcome, returned, raised, timed_out}
use ioka.Exceptions.{Result, ok, err}
use ioka.Models.{Db, Order, BalanceTransaction, owned_order, for_order}
use ioka.Booking.Create.{save_order}
use ioka.Booking.Ledger.Touch.{Touches}
use ioka.Booking.Issue.{Began, already, started, begin_issue}
use ioka.Booking.Settle.{complete_issue, release_hold, finish_issue}
use ioka.Booking.Ledger.{IsLedger, funds, payment_of}
use ioka.Booking.Ledger.Hold.{BeginPost, begin_issue-Post, begin_issue-funds}
use ioka.Booking.Ledger.Release.{ReleasePost, release_hold-Post, release_hold-funds}
use ioka.Booking.Ledger.Capture.{CapturePost, complete_issue-Post}
use ioka.Booking.Ledger.Store.{save_order-Post}
use ioka.Booking.Concurrent.{Flight, System, Event, request, answer, store, launch, land, step, run}
use ioka.Booking.Concurrent.Safety.{IsSound, AllOwned-get, step-IsSound}
use ioka.Booking.Concurrent.Flying.{
  works_on, Flying, OnlyPays, Flying-change, Flying-add, Flying-get, Flying-land,
}

-- No request of the schedule starts on an order that a flight works on.
abbrev pub IsExclusive : List Event → System → Type 0
IsExclusive [] s = Unit {0}
IsExclusive (request a j key ∷ es) s =
    (any (works_on j) s.flights ≡ false) × IsExclusive es (step (request a j key) s)
IsExclusive (e ∷ es) s = IsExclusive es (step e s)

-- A session's payments, under the ids that it was given.
only_pays :
    (x j : String) (o : Order) (db db' : Db) (a : String)
    → x ≡ j
    → Touches a x o db db'
    → OnlyPays j db db'
only_pays x j o db db' a same c k other =
    ap (Option.map (λ t. t.status)) (c.other_payments k (λ e. other (e ∙ same)))

same_pays : (j : String) (db db' : Db) → db' ≡ db → OnlyPays j db db'
same_pays j db db' same k other = ap (payment_of k) same

-- What one step leaves: each flight with its money, and every agent's funds.
pub record Kept (db : Db) (s : System) : Type 0 where
  pub flying : Flying s.db s.flights
  pub same_funds : (b : String) → funds b s.db ≡ funds b db

launch-Kept :
    (a j key : String) (db : Db) (fs : List Flight) (r : Result Began × Db)
    → Flying db fs
    → any (works_on j) fs ≡ false
    → BeginPost a j key db r
    → ((b : String) → funds b r.1 ≡ funds b db)
    → Kept db (launch a j key r fs)
unfolding launch
launch-Kept a j key db fs (ok (started booking_id), db') h free p same = record {
  flying =
      Flying-add db' _ fs free
        (subst (λ k. payment_of k db' ≡ some held) p.order_id p.start.payment)
        (Flying-change j db db' fs free
          (only_pays p.order.id j _ db db' p.agent.id p.order_id p.start.touches) h);
  same_funds = same;
}
launch-Kept a j key db fs (ok (already o g), db') h free p same = record {
  flying = Flying-change j db db' fs free (same_pays j db db' p) h;
  same_funds = same;
}
launch-Kept a j key db fs (err e, db') h free p same = record {
  flying = Flying-change j db db' fs free (same_pays j db db' p) h;
  same_funds = same;
}

module _ (a j : String) (db db' : Db) where
  release-pays : ReleasePost a j db db' → OnlyPays j db db'
  release-pays (inl same) = same_pays j db db' same
  release-pays (inr r) = only_pays r.order.id j _ db db' r.agent.id r.order_id r.done.touches

  capture-pays : (ticket : ProviderTicket) → CapturePost a j ticket db db' → OnlyPays j db db'
  capture-pays ticket (inl same) = same_pays j db db' same
  capture-pays ticket (inr r) = only_pays r.order.id j _ db db' r.agent.id r.order_id r.done.touches

  -- a capture of money that is held
  capture-funds :
      (ticket : ProviderTicket)
      → payment_of j db ≡ some held
      → CapturePost a j ticket db db'
      → (b : String) → funds b db' ≡ funds b db
  capture-funds ticket pays (inl same) b = ap (funds b) same
  capture-funds ticket pays (inr r) b = r.done.same_funds (live r.transaction r.transaction_found) b
    where
      live :
          (t : BalanceTransaction)
          → scalar (for_order j) db.transactions ≡ some t
          → is_released t.status ≡ false
      live t e = ground arith

record Finished (j : String) (db db' : Db) : Type 0 where
  only : OnlyPays j db db'
  same_funds : (b : String) → funds b db' ≡ funds b db

finish_issue-Finished :
    (a j key : String) (n : ℕ) (outcome : Outcome ProviderTicket) (db : Db)
    → IsLedger db
    → (o : Order) → scalar (owned_order a j) db.orders ≡ some o
    → payment_of j db ≡ some held
    → Finished j db (finish_issue a j key n outcome db).1
unfolding finish_issue
finish_issue-Finished a j key n (returned ticket) db v o e pays =
    let db' = (complete_issue a j key ticket n db).1 in
    let post = complete_issue-Post a j key ticket n db v in
    record {
      only = capture-pays a j db db' ticket post;
      same_funds = capture-funds a j db db' ticket pays post;
    }
finish_issue-Finished a j key n (raised message class) db v o e pays = record {
  only = release-pays a j db (release_hold a j message db) (release_hold-Post a j db v o e message);
  same_funds = release_hold-funds a j db v o e message;
}
finish_issue-Finished a j key n (timed_out message) db v o e pays = record {
  only = release-pays a j db (release_hold a j message db) (release_hold-Post a j db v o e message);
  same_funds = release_hold-funds a j db v o e message;
}

land-Kept :
    (n d : ℕ) (outcome : Outcome ProviderTicket) (s : System) (f : Option Flight)
    → IsSound s
    → Flying s.db s.flights
    → get_elem? s.flights n ≡ f
    → Kept s.db (land f n d outcome s)
unfolding land
land-Kept n d outcome s none v h e = record { flying = h; same_funds = λ b. refl }
land-Kept n d outcome s (some f) v h e =
    let (o, found) = AllOwned-get s.db s.flights n f v.owned e in
    let after = (finish_issue f.agent_id f.order_id f.key d outcome s.db).1 in
    let post =
      finish_issue-Finished f.agent_id f.order_id f.key d outcome s.db v.ledger o found
        (Flying-get s.db s.flights n f e h) in
    record {
      flying = Flying-land s.db after s.flights n f e post.only h;
      same_funds = post.same_funds;
    }

pub store-Kept :
    (db db' : Db) (fs : List Flight)
    → ((k : String) → payment_of k db' ≡ payment_of k db)
    → Flying db fs
    → Flying db' fs
store-Kept db db' [] same h = tt
store-Kept db db' (f ∷ fs) same h = (same f.order_id ∙ h.0, h.1, store-Kept db db' fs same h.2)

pub step-Kept :
    (e : Event) (es : List Event) (s : System)
    → IsSound s
    → Flying s.db s.flights
    → IsExclusive (e ∷ es) s
    → Kept s.db (step e s)
unfolding step
step-Kept (request a j key) es s v h x =
    launch-Kept a j key s.db s.flights (begin_issue a j key s.db) h x.0
      (begin_issue-Post a j key s.db v.ledger) (begin_issue-funds a j key s.db v.ledger)
step-Kept (answer n d outcome) es s v h x = land-Kept n d outcome s (get_elem? s.flights n) v h refl
step-Kept (store at a payload key payload_hash offer booking) es s v h x =
    let post = save_order-Post at a payload key payload_hash offer booking s.db v.ledger in
    let after = (save_order at a payload key payload_hash offer booking s.db).1 in
    record {
      flying = store-Kept s.db after s.flights post.same_payments h;
      same_funds = post.same_funds;
    }

later :
    (e : Event) (es : List Event) (s : System) → IsExclusive (e ∷ es) s → IsExclusive es (step e s)
later (request a j key) es s x = x.1
later (answer n d outcome) es s x = x
later (store at a payload key payload_hash offer booking) es s x = x

-- From a database in which orders and balance transactions agree, with each flight's money held: if
-- no request starts on an order while a flight works on that order, then however else the sessions
-- interleave and whatever the provider answers, no agent's balance together with what is held or
-- captured from it changes.
pub run-funds :
    (es : List Event) (s : System)
    → IsSound s
    → Flying s.db s.flights
    → IsExclusive es s
    → (b : String) → funds b (run es s).db ≡ funds b s.db
unfolding run
run-funds [] s v h x b = refl
run-funds (e ∷ es) s v h x b =
    let kept = step-Kept e es s v h x in
    run-funds es (step e s) (step-IsSound e s v) kept.flying (later e es s x) b ∙ kept.same_funds b
