-- ===== src/Search/Process/Redelivery.antt =====
-- `process` as a whole, and again for one search, as when the queue delivers a message twice.
use mathlib.Core.Path.{subst}
use ioka.Prelude.{
  ℕ, String, ◌≡◌, ◌⊎◌, refl, true, false, Option, none, some, List, inl, inr, eq_of_test,
  Bool-cases, Option-cases,
}
use ioka.Prelude.Rows.{scalar, scalar-holds}
use ioka.Domain.Enums.{is_final}
use ioka.Domain.Provider.{AirlineProvider, ProviderOffer, Outcome, returned, raised, timed_out}
use ioka.Models.{Db, FlightSearch, Offer, Moment, search_by_id}
use ioka.Search.Process.{search_request, begin_search, begin_row, add_offers, call_search, process}
use ioka.Search.Process.Ending.{IsEnded, IsAdded, run-IsEnded}

-- The search is there and is final.
abbrev IsDone : String → Db → Type 0
IsDone search_id db =
    (search : FlightSearch) × (scalar (search_by_id search_id) db.searches ≡ some search)
    × (is_final search.status ≡ true)

IsEnded-IsDone :
    (integrity_text : String) (at : Moment) (new_id : ℕ → String) (provider : String)
    (search : FlightSearch) (outcome : Outcome (List ProviderOffer)) (db db' : Db)
    → IsEnded integrity_text at new_id provider search outcome db db'
    → IsDone search.id db'
IsEnded-IsDone integrity_text at new_id provider search (returned items) db db' h =
    of_added (add_offers new_id provider search.id 0 items db.offers) h
  where
    of_added :
        (adds : Option (List Offer))
        → IsAdded integrity_text at new_id provider search items adds db db'
        → IsDone search.id db'
    of_added none h = (_, h.0, refl)
    of_added (some rows) h = (_, h.0, refl)
IsEnded-IsDone integrity_text at new_id provider search (raised message class) db db' h =
    (_, h.0, refl)
IsEnded-IsDone integrity_text at new_id provider search (timed_out message) db db' h =
    (_, h.0, refl)

-- The first session finds nothing to do, or a search that is not final.
pub begin_search-cases :
    (search_id : String) (db : Db)
    → (begin_search search_id db ≡ (none, db))
      ⊎ ((search : FlightSearch) × (scalar (search_by_id search_id) db.searches ≡ some search)
          × (is_final search.status ≡ false))
unfolding begin_search begin_row
begin_search-cases search_id db =
    elim (Option-cases (scalar (search_by_id search_id) db.searches)) [
      | inl missing ↦ inl (rw missing)
      | inr (row, found) ↦ elim (Bool-cases (is_final row.status)) [
        | inl final ↦ inl (rw (found, final))
        | inr open_search ↦ inr (row, found, open_search)
      ]
    ]

module _ (integrity_text : String) {S : Type 0} (provider : AirlineProvider S) where
  -- `process` does nothing, and does not call the provider, where there is no such search or its
  -- status is COMPLETED, FAILED or TIMED_OUT already.
  pub process_idle :
      (at : Moment) (new_id : ℕ → String) (search_id : String) (db : Db) (s : S)
      → begin_search search_id db ≡ (none, db)
      → process integrity_text provider at new_id search_id db s ≡ (db, s)
  unfolding process call_search
  process_idle at new_id search_id db s idle = rw idle

  begin_search-done :
      (search_id : String) (db : Db) → IsDone search_id db → begin_search search_id db ≡ (none, db)
  unfolding begin_search begin_row
  begin_search-done search_id db (search, found, final) = rw (found, final)

  pub process-IsEnded :
      (at : Moment) (new_id : ℕ → String) (search_id : String) (db : Db) (s : S)
      (search : FlightSearch)
      → scalar (search_by_id search_id) db.searches ≡ some search
      → is_final search.status ≡ false
      → IsEnded integrity_text at new_id provider.name search
          (provider.search (search_request search) s).0
          db
          (process integrity_text provider at new_id search_id db s).0
  process-IsEnded at new_id search_id db s search found open_search =
      subst
        (λ k.
          scalar (search_by_id k) db.searches ≡ some search
          → IsEnded integrity_text at new_id provider.name search
              (provider.search (search_request search) s).0 db
              (process integrity_text provider at new_id k db s).0)
        (eq_of_test search.id search_id
          (scalar-holds (search_by_id search_id) db.searches search found))
        (λ h. run-IsEnded integrity_text at new_id db search h open_search provider s) found

  process-IsDone :
      (at : Moment) (new_id : ℕ → String) (search_id : String) (db : Db) (s : S)
      (search : FlightSearch)
      → scalar (search_by_id search_id) db.searches ≡ some search
      → is_final search.status ≡ false
      → IsDone search_id (process integrity_text provider at new_id search_id db s).0
  process-IsDone at new_id search_id db s search found open_search =
      subst (λ k. IsDone k (process integrity_text provider at new_id search_id db s).0)
        (eq_of_test search.id search_id
          (scalar-holds (search_by_id search_id) db.searches search found))
        (IsEnded-IsDone integrity_text at new_id provider.name search _ db _
          (process-IsEnded at new_id search_id db s search found open_search))

  -- A search that is processed twice is the same as once: the second run changes neither the
  -- database nor the provider, whatever the first one met and whenever the second comes.
  pub process-process :
      (at later : Moment) (new_id next_id : ℕ → String) (search_id : String) (db : Db) (s t : S)
      → process integrity_text provider later next_id search_id
          (process integrity_text provider at new_id search_id db s).0
          t
        ≡ ((process integrity_text provider at new_id search_id db s).0, t)
  process-process at later new_id next_id search_id db s t =
      elim (begin_search-cases search_id db) [
        | inl idle ↦
            rw (process_idle at new_id search_id db s idle)
              (process_idle later next_id search_id db t idle)
        | inr (row, found, open_search) ↦ process_idle later next_id search_id _ t (
            begin_search-done search_id _
              (process-IsDone at new_id search_id db s row found open_search))
      ]
