-- ===== src/Booking/Concurrent/Sequential.antt =====
-- `issue_order` on its own, beside the steps that it is made of.
use mathlib.Core.Path.{subst}
use ioka.Prelude.{ℕ, String, ◌≡◌, refl, sym, ap, ◌∙◌, [], ◌∷◌}
use ioka.Domain.Provider.{AirlineProvider, ProviderTicket, Outcome, timed_out}
use ioka.Exceptions.{Result, ok, err}
use ioka.Models.{Db}
use ioka.Booking.Issue.{Began, already, started, begin_issue}
use ioka.Booking.Settle.{call_issue, issue_order}
use ioka.Booking.Ledger.{IsLedger, funds}
use ioka.Booking.Concurrent.{System, request, answer, launch, land, step, run}
use ioka.Booking.Concurrent.Safety.{IsSound, run-IsSound}
use ioka.Booking.Concurrent.Exclusive.{run-funds}

-- a system in which no request is in flight
abbrev pub quiet : Db → System
quiet db = record { db = db; flights = [] }

module _ {S : Type 0} (provider : AirlineProvider S) (a j key : String) (n : ℕ) where
  -- The steps of a request that is answered before another one comes.
  abbrev pub alone : Outcome ProviderTicket → Db → System
  alone outcome db = run (request a j key ∷ answer 0 n outcome ∷ []) (quiet db)

  launched :
      (began : Result Began) (db1 : Db) (s : S)
      → (outcome : Outcome ProviderTicket) × (step
            (answer 0 n outcome)
            (launch a j key (began, db1) [])
          ≡ quiet (call_issue provider a j key n began db1 s).1)
  unfolding step launch land call_issue
  launched (err e) db1 s = (timed_out "", refl)
  launched (ok (already order agent)) db1 s = (timed_out "", refl)
  launched (ok (started booking_id)) db1 s = ((provider.issue booking_id key s).0, refl)

  pub issue_order-run :
      (db : Db) (s : S)
      → (outcome : Outcome ProviderTicket) × (alone outcome db
          ≡ quiet (issue_order provider a j key n db s).1)
  unfolding run step issue_order
  issue_order-run db s = launched (begin_issue a j key db).0 (begin_issue a j key db).1 s

  -- `issue_order` with any provider, answer and key changes no agent's balance together with what is
  -- held or captured from it, and keeps orders and balance transactions in agreement, from a
  -- database in which they agree.
  pub issue_order-funds :
      (db : Db) (s : S)
      → IsLedger db
      → IsLedger (issue_order provider a j key n db s).1
        × ((b : String) → funds b (issue_order provider a j key n db s).1 ≡ funds b db)
  issue_order-funds db s v =
      let (outcome, same) = issue_order-run db s in
      let es = request a j key ∷ answer 0 n outcome ∷ [] in
      let sound : IsSound (quiet db) = record { ledger = v; owned = tt } in
      (
        subst (λ (x : System). IsLedger x.db) same (run-IsSound es (quiet db) sound).ledger,
        λ b.
            ap (λ (x : System). funds b x.db) (sym same)
            ∙ run-funds es (quiet db) sound tt (refl, tt) b,
      )
