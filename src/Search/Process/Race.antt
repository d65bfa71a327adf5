-- ===== src/Search/Process/Race.antt =====
-- Two deliveries of one search that overlap: both have begun before either stores its offers.
use ioka.Prelude.{ℕ, String, ◌≡◌, refl, true, some, List, ◌∷◌, ◌++◌, arith, eq_refl, ◌==◌, ◌&&◌}
use ioka.Prelude.Lists.{any, length, any-append}
use ioka.Prelude.Rows.{scalar, modify, scalar-modify_self}
use ioka.Domain.Provider.{ProviderSearchRequest, ProviderOffer, returned}
use ioka.Domain.Enums.{completed}
use ioka.Models.{Db, FlightSearch, Offer, Moment, search_by_id}
use ioka.Audit.{add_status_audit, add_provider_audit}
use ioka.Search.Process.{
  offer_row, add_offers, complete, completed_search, fail, fail_row, fail_search, store_rows,
  commit_failure, or_fail, finish_search,
}
use ioka.Search.Process.Ending.{failed_search, offer_rows, add_offers-rows}
use ioka.Search.Process.Catalog.{is_repeat, add_offers_repeat}

-- The first database has the search COMPLETED with its offers; the second has it FAILED, with the
-- same offers.
abbrev pub IsOverwritten : String → Moment → FlightSearch → List Offer → Db → Db → Db → Type 0
IsOverwritten integrity_text at search rows db db1 db2 =
    (scalar (search_by_id search.id) db1.searches
      ≡ some (record search { status = completed; completed_at = some at.now }))
    × (db1.offers ≡ db.offers ++ rows)
    × (scalar (search_by_id search.id) db2.searches
        ≡ some (
            failed_search (commit_failure integrity_text)
              (record search { completed_at = some at.now })))
    × (db2.offers ≡ db.offers ++ rows)

module _ (search : FlightSearch) where
  row_after :
      (f : FlightSearch → FlightSearch) (xs : List FlightSearch) (row : FlightSearch)
      → ((x : FlightSearch) → (f x).id ≡ x.id)
      → scalar (search_by_id search.id) xs ≡ some row
      → scalar (search_by_id search.id) (modify (search_by_id search.id) f xs) ≡ some (f row)
  row_after f xs row keeps e =
      rw (scalar-modify_self (search_by_id search.id) f xs (λ x. rw (keeps x)), e)

module _ (integrity_text : String) (at later : Moment) (new_id next_id : ℕ → String)
    (provider : String) (request : ProviderSearchRequest) (search : FlightSearch)
    (item : ProviderOffer) (items : List ProviderOffer) (rows : List Offer) (db : Db)
    (found : scalar (search_by_id search.id) db.searches ≡ some search)
    (stored : add_offers new_id provider search.id 0 (item ∷ items) db.offers ≡ some rows) where
  abbrev first : Db
  first = completed_search at request (length (item ∷ items)) search rows db

  first_is :
      finish_search integrity_text at new_id provider search.id request (returned (item ∷ items)) db
      ≡ first
  unfolding finish_search or_fail store_rows
  first_is = rw (found, stored)

  first_row : scalar (search_by_id search.id) first.searches ≡ some (complete at search)
  unfolding completed_search add_status_audit add_provider_audit
  first_row = row_after search (complete at) db.searches search (λ x. refl) found

  first_offers : first.offers ≡ db.offers ++ offer_rows new_id provider search.id 0 (item ∷ items)
  unfolding completed_search add_status_audit add_provider_audit
  first_offers = add_offers-rows new_id provider search.id 0 (item ∷ items) db.offers rows stored

  repeated : any (is_repeat provider first.offers) (item ∷ items) ≡ true
  unfolding offer_row
  repeated =
      let split =
        any-append (λ o. o.provider == provider && o.provider_offer_id == item.provider_offer_id)
          db.offers (offer_rows new_id provider search.id 0 (item ∷ items)) in
      rw first_offers (rw split (ground (arith, eq_refl provider, eq_refl item.provider_offer_id)))

  second_is :
      finish_search integrity_text later next_id provider search.id request
        (returned (item ∷ items))
        first
      ≡ fail_search later search.id request (commit_failure integrity_text) first
  unfolding finish_search or_fail store_rows
  second_is =
      let row = first_row in
      let clash =
        add_offers_repeat next_id provider search.id 0 (item ∷ items) first.offers repeated in
      rw (row, clash)

  overwritten :
      IsOverwritten integrity_text at search
        (offer_rows new_id provider search.id 0 (item ∷ items))
        db
        first
        (fail_search later search.id request (commit_failure integrity_text) first)
  unfolding fail_search fail_row add_status_audit add_provider_audit
  overwritten =
      let row = first_row in
      let same = first_offers in
      let last =
        row_after search (fail (commit_failure integrity_text)) first.searches (complete at search)
          (λ x. refl) row in
      rw row (refl, same, last, same)

  -- If a search is delivered twice and both deliveries have begun, and the provider returns the same
  -- offers to both, then after the first has stored them and made the search COMPLETED the second
  -- makes it FAILED with `provider_error`, while its offers stay in the table.
  pub finish_search-IsOverwritten :
      let db1 =
        finish_search integrity_text at new_id provider search.id request
          (returned (item ∷ items))
          db in
      IsOverwritten integrity_text at search
        (offer_rows new_id provider search.id 0 (item ∷ items))
        db
        db1
        (finish_search integrity_text later next_id provider search.id request
          (returned (item ∷ items))
          db1)
  finish_search-IsOverwritten = rw (first_is, second_is) overwritten
