-- ===== src/MockProvider/Repeat.antt =====
-- The mock provider called again: `book` and `issue` with one key, `search` for one route.
use ioka.Prelude.{
  ℕ, String, ◌≡◌, refl, ap, ◌∙◌, true, false, none, some, List, [], ◌∷◌, ◌++◌, ◌==◌, ◌&&◌, arith,
  inl, inr, Option-cases, eq_refl,
}
use ioka.Prelude.Lists.{any, any-append}
use ioka.Prelude.Rows.{scalar, scalar-append}
use ioka.Domain.Calendar.{Datetime}
use ioka.Domain.Enums.{is_final}
use ioka.Json.{Fields}
use ioka.Domain.Provider.{
  ProviderSearchRequest, ProviderOffer, ProviderBooking, ProviderTicket, returned,
}
use ioka.Models.{Db, FlightSearch, Offer, Moment, search_by_id}
use ioka.Search.Process.{search_request, offer_row, commit_failure, process}
use ioka.Search.Process.Ending.{IsMissed, offer_rows}
use ioka.Search.Process.Catalog.{is_repeat, process_repeat}
use ioka.MockProvider.{
  MockState, seed, variant_offer, mock_offers, new_booking, new_ticket, book_found, mock_book,
  issue_found, mock_issue, mock_provider,
}

-- A row of the provider with the id of the first offer makes that a repeat.
repeat_first :
    (item : ProviderOffer) (items : List ProviderOffer) (earlier : List Offer) (row : Offer)
    (rest : List Offer)
    → row.provider ≡ "mock-air"
    → row.provider_offer_id ≡ item.provider_offer_id
    → any (is_repeat "mock-air" (earlier ++ row ∷ rest)) (item ∷ items) ≡ true
repeat_first item items earlier row rest e f =
    let hit : is_repeat "mock-air" (earlier ++ row ∷ rest) item ≡ true =
      any-append (λ o. o.provider == "mock-air" && o.provider_offer_id == item.provider_offer_id)
        earlier (row ∷ rest)
      ∙ rw (e, f, eq_refl item.provider_offer_id) (ground arith) in
    rw hit

-- A key that was appended is found.
found_again :
    {A : Type 0} (key : String) (value : A) (entries : List (String × A))
    → scalar (λ e. e.0 == key) entries ≡ none
    → scalar (λ e. e.0 == key) (entries ++ (key, value) ∷ []) ≡ some (key, value)
unfolding scalar
found_again key value entries e =
    scalar-append (λ x. x.0 == key) entries ((key, value) ∷ []) ∙ rw (e, eq_refl key)

module _ (sha256 : String → String) where
  mock_book-mock_book :
      (key : String) (s : MockState)
      → mock_book sha256 key (mock_book sha256 key s).1 ≡ mock_book sha256 key s
  unfolding mock_book book_found
  mock_book-mock_book key s = elim (Option-cases (scalar (λ e. e.0 == key) s.bookings)) [
    | inl new ↦
        let again = found_again key (new_booking sha256 key) s.bookings new in rw new (rw again)
    | inr (entry, old) ↦ rw old (rw old)
  ]

module _ (sha256 : String → String) (now later : Datetime) where
  mock_issue-mock_issue :
      (booking_id other_id key : String) (s : MockState)
      → mock_issue sha256 later other_id key (mock_issue sha256 now booking_id key s).1
        ≡ mock_issue sha256 now booking_id key s
  unfolding mock_issue issue_found
  mock_issue-mock_issue booking_id other_id key s =
      elim (Option-cases (scalar (λ e. e.0 == key) s.tickets)) [
        | inl new ↦
            let again = found_again key (new_ticket sha256 now booking_id key) s.tickets new in
            rw new (rw again)
        | inr (entry, old) ↦ rw old (rw old)
      ]

  -- A second `book` or `issue` of the mock provider with one key answers what the first did, and
  -- changes nothing, also when it comes later or names another offer, passenger or booking.
  pub mock_provider_again :
      (offer_id other_offer booking_id other_id key : String) (passenger other : Fields)
      (s : MockState)
      → let first = mock_provider sha256 now in
        let again = mock_provider sha256 later in
        (again.book other_offer other key (first.book offer_id passenger key s).1
          ≡ first.book offer_id passenger key s)
        × (again.issue other_id key (first.issue booking_id key s).1 ≡ first.issue booking_id key s)
  mock_provider_again offer_id other_offer booking_id other_id key passenger other s = (
    ap (λ (r : ProviderBooking × MockState). (returned r.0, r.1))
        (mock_book-mock_book sha256 key s),
    ap (λ (r : ProviderTicket × MockState). (returned r.0, r.1))
        (mock_issue-mock_issue booking_id other_id key s),
  )

  -- The ids of the offers name the route and the date only.
  repeated :
      (r r' : ProviderSearchRequest) (search_id : String) (new_id : ℕ → String)
      (earlier more : List Offer)
      → seed sha256 r ≡ seed sha256 r'
      → any
          (is_repeat "mock-air" (
            earlier
            ++ (offer_rows new_id "mock-air" search_id 0 (mock_offers sha256 now r) ++ more)))
          (mock_offers sha256 later r')
        ≡ true
  unfolding mock_offers variant_offer offer_row
  repeated r r' search_id new_id earlier more same =
      let row =
        offer_row "mock-air" search_id (new_id 0)
          (variant_offer sha256 now r 0 "BASIC" "Carry-on 8 kg" 100) in
      let others =
        variant_offer sha256 now r 1 "FLEX" "Checked baggage 23 kg" 125
        ∷ variant_offer sha256 now r 2 "BUSINESS" "Checked baggage 32 kg" 210
        ∷ [] in
      let items =
        variant_offer sha256 later r' 1 "FLEX" "Checked baggage 23 kg" 125
        ∷ variant_offer sha256 later r' 2 "BUSINESS" "Checked baggage 32 kg" 210
        ∷ [] in
      repeat_first (variant_offer sha256 later r' 0 "BASIC" "Carry-on 8 kg" 100) items earlier row
        (offer_rows new_id "mock-air" search_id 1 others ++ more) refl (rw same)

  -- Once the offers of a route and a date are stored for some search, another search of the same
  -- route and date that is there and not final is FAILED with `provider_error`, whoever asks for it,
  -- at whatever time and for however many adults, and none of its offers is stored.
  pub process_same_route :
      (integrity_text : String) (r : ProviderSearchRequest) (first_id : String)
      (new_id next_id : ℕ → String) (earlier more : List Offer) (at : Moment) (search_id : String)
      (db : Db) (s : MockState) (search : FlightSearch)
      → db.offers
        ≡ earlier ++ (offer_rows new_id "mock-air" first_id 0 (mock_offers sha256 now r) ++ more)
      → scalar (search_by_id search_id) db.searches ≡ some search
      → is_final search.status ≡ false
      → search.origin ≡ r.origin
      → search.destination ≡ r.destination
      → search.departure_date ≡ r.departure_date
      → IsMissed
          (commit_failure integrity_text)
          search
          db
          (process integrity_text (mock_provider sha256 later) at next_id search_id db s).0
  process_same_route integrity_text r first_id new_id next_id earlier more at search_id db s search
        offers found open_search o d day =
      process_repeat integrity_text (mock_provider sha256 later) at next_id search_id db s search
        found open_search (mock_offers sha256 later (search_request search)) s refl
        (rw offers
          (repeated r (search_request search) first_id new_id earlier more (rw (o, d, day))))
