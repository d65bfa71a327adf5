-- ===== src/Search/Process/Ending.antt =====
-- How one run of `process` leaves a search, on every answer of the provider.
use ioka.Prelude.{
  ℕ, suc, String, ◌≡◌, refl, sym, ap, ◌∙◌, false, Option, none, some, List, [], ◌∷◌, ◌++◌, inl, inr,
  Bool-cases,
}
use ioka.Prelude.Lists.{any, length}
use ioka.Prelude.Rows.{scalar, modify, scalar-modify_self}
use ioka.Domain.Enums.{SearchStatus, completed, is_final, in_progress, search_text}
use ioka.Domain.Provider.{
  failure_message, AirlineProvider, ProviderOffer, Outcome, returned, raised, timed_out,
}
use ioka.Models.{Db, FlightSearch, Offer, Moment, search_by_id}
use ioka.Audit.{add_status_audit, add_provider_audit}
use ioka.Search.Process.{
  start_search, search_request, begin_row, begin_search, offer_row, same_offer, add_offers,
  complete, completed_search, fail, fail_row, fail_search, store_rows, commit_failure, or_fail,
  finish_search, call_search, process,
}

-- The rows that a list of offers becomes.
abbrev pub offer_rows : (ℕ → String) → String → String → ℕ → List ProviderOffer → List Offer
offer_rows new_id provider search_id n [] = []
offer_rows new_id provider search_id n (item ∷ items) =
    offer_row provider search_id (new_id n) item
    ∷ offer_rows new_id provider search_id (suc n) items

-- Nothing but the searches, the offers and the audit rows has changed.
abbrev pub SameRest : Db → Db → Type 0
SameRest db db' =
    record db' { searches = db.searches; offers = db.offers; audit_logs = db.audit_logs } ≡ db

-- The search is COMPLETED with all of the offers.
abbrev pub IsStored :
    Moment → (ℕ → String) → String → FlightSearch → List ProviderOffer → Db → Db → Type 0
IsStored at new_id provider search items db db' =
    (scalar (search_by_id search.id) db'.searches
      ≡ some (record search { status = completed; completed_at = some at.now }))
    × (db'.offers ≡ db.offers ++ offer_rows new_id provider search.id 0 items)
    × SameRest db db'

-- The status and the error code of a search that the provider, or the commit, has failed.
abbrev pub ended_with : Outcome (List ProviderOffer) → SearchStatus × String
ended_with (timed_out message) = (SearchStatus.timed_out, "provider_timeout")
ended_with _ = (SearchStatus.failed, "provider_error")

abbrev pub failed_search : Outcome (List ProviderOffer) → FlightSearch → FlightSearch
failed_search failure search = record search {
  status = (ended_with failure).0;
  error_code = some (ended_with failure).1;
  error_message = some (failure_message failure);
}

-- The search has failed, and no offer is stored.
abbrev pub IsMissed : Outcome (List ProviderOffer) → FlightSearch → Db → Db → Type 0
IsMissed failure search db db' =
    (scalar (search_by_id search.id) db'.searches ≡ some (failed_search failure search))
    × (db'.offers ≡ db.offers)
    × SameRest db db'

abbrev pub IsAdded :
    String
    → Moment
    → (ℕ → String)
    → String
    → FlightSearch
    → List ProviderOffer
    → Option (List Offer)
    → Db
    → Db
    → Type 0
IsAdded integrity_text at new_id provider search items none db db' =
    IsMissed (commit_failure integrity_text) search db db'
IsAdded integrity_text at new_id provider search items (some rows) db db' =
    IsStored at new_id provider search items db db'

abbrev pub IsEnded :
    String
    → Moment
    → (ℕ → String)
    → String
    → FlightSearch
    → Outcome (List ProviderOffer)
    → Db
    → Db
    → Type 0
IsEnded integrity_text at new_id provider search (returned items) db db' =
    IsAdded integrity_text at new_id provider search items
      (add_offers new_id provider search.id 0 items db.offers) db db'
IsEnded integrity_text at new_id provider search failure db db' = IsMissed failure search db db'

-- The INSERTs that succeed append one row for each offer.
module _ (new_id : ℕ → String) (provider search_id : String) where
  append_assoc :
      (xs : List Offer) (x : Offer) (ys : List Offer) → (xs ++ x ∷ []) ++ ys ≡ xs ++ x ∷ ys
  append_assoc [] x ys = refl
  append_assoc (y ∷ xs) x ys = ap (λ l. y ∷ l) (append_assoc xs x ys)

  append_nil : (xs : List Offer) → xs ++ [] ≡ xs
  append_nil [] = refl
  append_nil (x ∷ xs) = ap (λ l. x ∷ l) (append_nil xs)

  pub add_offers-rows :
      (n : ℕ) (items : List ProviderOffer) (rows rows' : List Offer)
      → add_offers new_id provider search_id n items rows ≡ some rows'
      → rows' ≡ rows ++ offer_rows new_id provider search_id n items
  unfolding add_offers
  add_offers-rows n [] rows rows' e = sym (same e) ∙ sym (append_nil rows)
    where
      same : some rows ≡ some rows' → rows ≡ rows'
      same h = cc
  add_offers-rows n (item ∷ items) rows rows' e =
      let row = offer_row provider search_id (new_id n) item in
      elim (Bool-cases (any (same_offer row) rows)) [
        | inl clash ↦ absurd (nothing (rw clash at e))
        | inr free ↦
            add_offers-rows (suc n) items (rows ++ row ∷ []) rows' (rw free at e)
            ∙ append_assoc rows row (offer_rows new_id provider search_id (suc n) items)
      ]
    where
      nothing : none ≡ some rows' → ⊥
      nothing x = cc

module _ (integrity_text : String) (at : Moment) (new_id : ℕ → String) (db : Db)
    (search : FlightSearch)
    (found : scalar (search_by_id search.id) db.searches ≡ some search) where
  abbrev begun : Db
  begun =
      add_status_audit "flight_search" search.id "provider_search_started"
        (some (search_text search.status)) (search_text in_progress)
        (record db { searches = modify (search_by_id search.id) start_search db.searches })

  begun_row : scalar (search_by_id search.id) begun.searches ≡ some (start_search search)
  unfolding add_status_audit
  begun_row =
      rw (scalar-modify_self (search_by_id search.id) start_search db.searches (λ x. refl), found)

  row_again :
      (f : FlightSearch → FlightSearch)
      → ((x : FlightSearch) → (f x).id ≡ x.id)
      → scalar (search_by_id search.id) (modify (search_by_id search.id) f begun.searches)
        ≡ some (f (start_search search))
  row_again f keeps =
      rw (
        scalar-modify_self (search_by_id search.id) f begun.searches (λ x. rw (keeps x)),
        begun_row,
      )

  fail-failed_search :
      (failure : Outcome (List ProviderOffer))
      → fail failure (start_search search) ≡ failed_search failure search
  fail-failed_search (returned items) = refl
  fail-failed_search (raised message class) = refl
  fail-failed_search (timed_out message) = refl

  fail_search-IsMissed :
      (failure : Outcome (List ProviderOffer))
      → IsMissed failure search db (fail_search at search.id (search_request search) failure begun)
  unfolding fail_search fail_row add_status_audit add_provider_audit
  fail_search-IsMissed failure =
      let row = begun_row in
      let again = row_again (fail failure) (λ x. refl) ∙ ap some (fail-failed_search failure) in
      rw row (again, refl, refl)

  store_rows-IsAdded :
      (provider : String) (items : List ProviderOffer) (adds : Option (List Offer))
      → add_offers new_id provider search.id 0 items db.offers ≡ adds
      → IsAdded integrity_text at new_id provider search items adds db (
          or_fail integrity_text at search.id
            (search_request search)
            (store_rows at
              (search_request search)
              (length items)
              (scalar (search_by_id search.id) begun.searches)
              adds
              begun)
            begun)
  unfolding or_fail store_rows completed_search add_status_audit add_provider_audit
  store_rows-IsAdded provider items none e =
      let row = begun_row in
      let missed = fail_search-IsMissed (commit_failure integrity_text) in rw row missed
  store_rows-IsAdded provider items (some rows) e =
      let row = begun_row in
      let again = row_again (complete at) (λ x. refl) in
      let added = add_offers-rows new_id provider search.id 0 items db.offers rows e in
      rw row (again, added, refl)

  finish_search-IsEnded :
      (provider : String) (outcome : Outcome (List ProviderOffer))
      → IsEnded integrity_text at new_id provider search outcome db (
          finish_search integrity_text at new_id provider search.id
            (search_request search)
            outcome
            begun)
  unfolding finish_search add_status_audit
  finish_search-IsEnded provider (returned items) = store_rows-IsAdded provider items _ refl
  finish_search-IsEnded provider (raised message class) =
      fail_search-IsMissed (raised message class)
  finish_search-IsEnded provider (timed_out message) = fail_search-IsMissed (timed_out message)

  module _ (open_search : is_final search.status ≡ false) where
    begin_search-open : begin_search search.id db ≡ (some (search_request search), begun)
    unfolding begin_search begin_row
    begin_search-open = rw (found, open_search)

    pub run-IsEnded :
        {S : Type 0} (provider : AirlineProvider S) (s : S)
        → IsEnded integrity_text at new_id provider.name search
            (provider.search (search_request search) s).0
            db
            (process integrity_text provider at new_id search.id db s).0
    unfolding process call_search
    run-IsEnded provider s = rw begin_search-open (finish_search-IsEnded provider.name _)
