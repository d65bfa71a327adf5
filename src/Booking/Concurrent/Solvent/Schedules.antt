-- ===== src/Booking/Concurrent/Solvent/Schedules.antt =====
-- No schedule overdraws a balance.
use ioka.Prelude.{ℕ, ◌≡◌, refl, sym, String, Option, none, some, List, [], ◌∷◌}
use mathlib.Core.Path.{subst}
use ioka.Prelude.Int.{pos, ◌≤ℤ◌}
use ioka.Prelude.Lists.{get_elem?}
use ioka.Domain.Provider.{ProviderTicket, Outcome}
use ioka.Exceptions.{Result, ok, err}
use ioka.Models.{Db}
use ioka.Booking.Issue.{Began, already, started, begin_issue}
use ioka.Booking.Concurrent.{Flight, System, Event, request, answer, store, launch, land, step, run}
use ioka.Booking.Concurrent.Solvent.Begin.{begin_issue-IsSolvent}
use ioka.Booking.Concurrent.Solvent.Finish.{finish_issue-IsSolvent, save_order-IsSolvent}
use ioka.Booking.Concurrent.Solvent.{IsSolvent}

pub launch-db :
    (a j key : String) (r : Result Began × Db) (fs : List Flight) → (launch a j key r fs).db ≡ r.1
unfolding launch
launch-db a j key (ok (started booking_id), db) fs = refl
launch-db a j key (ok (already order agent), db) fs = refl
launch-db a j key (err e, db) fs = refl

land-IsSolvent :
    (f : Option Flight) (n d : ℕ) (outcome : Outcome ProviderTicket) (s : System)
    → IsSolvent s.db
    → IsSolvent (land f n d outcome s).db
unfolding land
land-IsSolvent none n d outcome s v = v
land-IsSolvent (some f) n d outcome s v =
    finish_issue-IsSolvent f.agent_id f.order_id f.key d outcome s.db v

-- The offers that new orders are of have no negative price.
abbrev pub ArePriced : List Event → Type 0
ArePriced [] = Unit {0}
ArePriced (request a j key ∷ es) = ArePriced es
ArePriced (answer n d outcome ∷ es) = ArePriced es
ArePriced (store at a payload key payload_hash offer booking ∷ es) =
    (pos 0 ≤ℤ offer.total_amount) × ArePriced es

launched :
    (a j key : String) (s : System) → IsSolvent s.db → IsSolvent (step (request a j key) s).db
unfolding step
launched a j key s v =
    subst IsSolvent (sym (launch-db a j key (begin_issue a j key s.db) s.flights))
      (begin_issue-IsSolvent a j key s.db v)

-- No schedule of concurrent issues and new orders overdraws an agent: from a database in which no
-- balance, price of an order or amount of a balance transaction is negative, none becomes negative,
-- whatever the provider answers, if the offers of the new orders have no negative price.
pub run-IsSolvent :
    (es : List Event) (s : System) → ArePriced es → IsSolvent s.db → IsSolvent (run es s).db
unfolding run step
run-IsSolvent [] s p v = v
run-IsSolvent (request a j key ∷ es) s p v =
    run-IsSolvent es (step (request a j key) s) p (launched a j key s v)
run-IsSolvent (answer n d outcome ∷ es) s p v =
    run-IsSolvent es (step (answer n d outcome) s) p
      (land-IsSolvent (get_elem? s.flights n) n d outcome s v)
run-IsSolvent (store at a payload key payload_hash offer booking ∷ es) s p v =
    run-IsSolvent es (step (store at a payload key payload_hash offer booking) s) p.1
      (save_order-IsSolvent at a payload key payload_hash offer booking s.db p.0 v)
