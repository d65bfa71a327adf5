-- ===== src/Booking/Concurrent/Safety.antt =====
-- What holds however the sessions of concurrent requests interleave.
use mathlib.Core.Path.{subst}
use ioka.Prelude.{
  ℕ, zero, suc, String, ◌≡◌, refl, sym, Option, none, some, List, [], ◌∷◌, ◌++◌, inl, inr,
}
use ioka.Prelude.Lists.{get_elem?, remove_at}
use ioka.Prelude.Rows.{scalar}
use ioka.Domain.Provider.{ProviderTicket, Outcome, returned, raised, timed_out}
use ioka.Exceptions.{Result, ok, err}
use ioka.Models.{Db, Order, owned_order}
use ioka.Booking.Issue.{Began, already, started, begin_issue}
use ioka.Booking.Create.{save_order}
use ioka.Booking.Settle.{finish_issue}
use ioka.Booking.Ledger.{IsLedger}
use ioka.Booking.Ledger.Touch.{Extends, found-Extends}
use ioka.Booking.Ledger.Hold.{Holding, BeginPost, begin_issue-Post, begin_issue-IsLedger}
use ioka.Booking.Ledger.Release.{ReleasePost, release_hold-Post, release_hold-IsLedger}
use ioka.Booking.Ledger.Capture.{CapturePost, complete_issue-Post, complete_issue-IsLedger}
use ioka.Booking.Ledger.Store.{save_order-Post}
use ioka.Booking.Concurrent.{Flight, System, Event, request, answer, store, launch, land, step, run}

-- The order that a flight works on is there and belongs to its agent.
abbrev pub IsOwned : Db → Flight → Type 0
IsOwned db f = (o : Order) × (scalar (owned_order f.agent_id f.order_id) db.orders ≡ some o)

abbrev pub AllOwned : Db → List Flight → Type 0
AllOwned db [] = Unit {0}
AllOwned db (f ∷ fs) = IsOwned db f × AllOwned db fs

pub record IsSound (s : System) : Type 0 where
  pub ledger : IsLedger s.db
  pub owned : AllOwned s.db s.flights

AllOwned-Extends :
    (db db' : Db) (fs : List Flight) → Extends db db' → AllOwned db fs → AllOwned db' fs
AllOwned-Extends db db' [] more h = tt
AllOwned-Extends db db' (f ∷ fs) more h =
    (more f.agent_id f.order_id h.0.0 h.0.1, AllOwned-Extends db db' fs more h.1)

AllOwned-add :
    (db : Db) (fs : List Flight) (f : Flight)
    → AllOwned db fs
    → IsOwned db f
    → AllOwned db (fs ++ f ∷ [])
AllOwned-add db [] f h o = (o, tt)
AllOwned-add db (g ∷ fs) f h o = (h.0, AllOwned-add db fs f h.1 o)

AllOwned-remove :
    (db : Db) (fs : List Flight) (n : ℕ) → AllOwned db fs → AllOwned db (remove_at fs n)
AllOwned-remove db [] n h = tt
AllOwned-remove db (f ∷ fs) zero h = h.1
AllOwned-remove db (f ∷ fs) (suc n) h = (h.0, AllOwned-remove db fs n h.1)

pub AllOwned-get :
    (db : Db) (fs : List Flight) (n : ℕ) (f : Flight)
    → AllOwned db fs
    → get_elem? fs n ≡ some f
    → IsOwned db f
AllOwned-get db [] n f h e = cc
AllOwned-get db (g ∷ fs) zero f h e = subst (IsOwned db) {x = g} {y = f} (cc) h.0
AllOwned-get db (g ∷ fs) (suc n) f h e = AllOwned-get db fs n f h.1 e

Extends-same : (db db' : Db) → db' ≡ db → Extends db db'
Extends-same db db' same = subst (Extends db) (sym same) (λ b k x e. (x, e))

module _ (a j : String) (db db' : Db) (v : IsLedger db) where
  Holding-Extends : (key : String) → Holding a j key db db' → Extends db db'
  Holding-Extends key h =
      found-Extends a j h.agent.id h.order.id _ h.order db db' h.agent_id h.order_id h.start.touches
        v h.order_found

  release-Extends : ReleasePost a j db db' → Extends db db'
  release-Extends (inl same) = Extends-same db db' same
  release-Extends (inr h) =
      found-Extends a j h.agent.id h.order.id _ h.order db db' h.agent_id h.order_id h.done.touches
        v h.order_found

  capture-Extends : (ticket : ProviderTicket) → CapturePost a j ticket db db' → Extends db db'
  capture-Extends ticket (inl same) = Extends-same db db' same
  capture-Extends ticket (inr h) =
      found-Extends a j h.agent.id h.order.id _ h.order db db' h.agent_id h.order_id h.done.touches
        v h.order_found

launch-IsSound :
    (a j key : String) (db : Db) (fs : List Flight) (r : Result Began × Db)
    → IsLedger db
    → AllOwned db fs
    → IsLedger r.1
    → BeginPost a j key db r
    → IsSound (launch a j key r fs)
unfolding launch
launch-IsSound a j key db fs (ok (started booking_id), db') v h v' p =
    let more = Holding-Extends a j db db' v key p in
    record {
      ledger = v';
      owned =
          AllOwned-add db' fs _ (AllOwned-Extends db db' fs more h)
            (more a j p.order p.order_found);
    }
launch-IsSound a j key db fs (ok (already o g), db') v h v' p = record {
  ledger = v';
  owned = AllOwned-Extends db db' fs (Extends-same db db' p) h;
}
launch-IsSound a j key db fs (err e, db') v h v' p = record {
  ledger = v';
  owned = AllOwned-Extends db db' fs (Extends-same db db' p) h;
}

-- The answer of the provider, whatever it is, for an order that is there.
record FinishPost (db db' : Db) : Type 0 where
  ledger : IsLedger db'
  extends : Extends db db'

finish_issue-Post :
    (a j key : String) (n : ℕ) (outcome : Outcome ProviderTicket) (db : Db)
    → IsLedger db
    → (o : Order) → scalar (owned_order a j) db.orders ≡ some o
    → FinishPost db (finish_issue a j key n outcome db).1
unfolding finish_issue
finish_issue-Post a j key n (returned ticket) db v o e = record {
  ledger = complete_issue-IsLedger a j key ticket n db v;
  extends = capture-Extends a j db _ v ticket (complete_issue-Post a j key ticket n db v);
}
finish_issue-Post a j key n (raised message class) db v o e = record {
  ledger = release_hold-IsLedger a j db v o e message;
  extends = release-Extends a j db _ v (release_hold-Post a j db v o e message);
}
finish_issue-Post a j key n (timed_out message) db v o e = record {
  ledger = release_hold-IsLedger a j db v o e message;
  extends = release-Extends a j db _ v (release_hold-Post a j db v o e message);
}

land-IsSound :
    (n d : ℕ) (outcome : Outcome ProviderTicket) (s : System) (f : Option Flight)
    → IsSound s
    → get_elem? s.flights n ≡ f
    → IsSound (land f n d outcome s)
unfolding land
land-IsSound n d outcome s none h e = h
land-IsSound n d outcome s (some f) h e =
    let (o, found) = AllOwned-get s.db s.flights n f h.owned e in
    let post = finish_issue-Post f.agent_id f.order_id f.key d outcome s.db h.ledger o found in
    let after = (finish_issue f.agent_id f.order_id f.key d outcome s.db).1 in
    record {
      ledger = post.ledger;
      owned =
          AllOwned-remove after s.flights n
            (AllOwned-Extends s.db after s.flights post.extends h.owned);
    }

pub step-IsSound : (e : Event) (s : System) → IsSound s → IsSound (step e s)
unfolding step
step-IsSound (request a j key) s h =
    launch-IsSound a j key s.db s.flights (begin_issue a j key s.db) h.ledger h.owned
      (begin_issue-IsLedger a j key s.db h.ledger) (begin_issue-Post a j key s.db h.ledger)
step-IsSound (answer n d outcome) s h = land-IsSound n d outcome s (get_elem? s.flights n) h refl
step-IsSound (store at a payload key payload_hash offer booking) s h =
    let post = save_order-Post at a payload key payload_hash offer booking s.db h.ledger in
    let after = (save_order at a payload key payload_hash offer booking s.db).1 in
    record {
      ledger = post.ledger;
      owned = AllOwned-Extends s.db after s.flights post.extends h.owned;
    }

-- From a system of which this holds, however the sessions of concurrent issues and of new orders
-- interleave, and whatever the provider answers, it holds again: every order keeps one owner, every
-- balance transaction is of an order that is there and has that order's agent and amount, the
-- order's status and its payment status agree (ISSUED with CAPTURED, ISSUING with HELD, BOOKED with
-- RELEASED or no transaction), and every flight works on an order of its own agent.
pub run-IsSound : (es : List Event) (s : System) → IsSound s → IsSound (run es s)
unfolding run
run-IsSound [] s h = h
run-IsSound (e ∷ es) s h = run-IsSound es (step e s) (step-IsSound e s h)
