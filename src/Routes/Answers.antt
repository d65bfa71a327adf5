-- ===== src/Routes/Answers.antt =====
-- What an agent gets from the routes after the services have done their work.
use mathlib.Core.Path.{subst}
use ioka.Prelude.{
  ℕ, String, ◌≡◌, refl, ap, true, false, truthy, none, some, List, ◌++◌, ◌==◌, ◌&&◌, arith, eq_refl,
}
use ioka.Prelude.Rows.{scalar, select, scalar-finer}
use ioka.Domain.Enums.{PaymentStatus, is_final, completed}
use ioka.Domain.Provider.{
  AirlineProvider, ProviderOffer, Outcome, returned, raised, timed_out, failure_message, is_failure,
}
use ioka.Exceptions.{Result, ok}
use ioka.Models.{Db, Agent, FlightSearch, Offer, Order, Moment, search_by_id}
use ioka.Schemas.{Passenger, dump_passenger}
use ioka.Booking.Create.{get_order}
use ioka.Booking.Settle.{Issued, issue_order}
use ioka.Booking.Settle.Replay.{IsRecorded, issue_order-IsRecorded}
use ioka.Search.Process.{search_request, process, add_offers}
use ioka.Search.Process.Ending.{
  IsEnded, IsAdded, IsMissed, IsStored, offer_rows, ended_with, failed_search,
}
use ioka.Search.Process.Redelivery.{process-IsEnded}
use ioka.Search.Start.{get, get_owned, offers_of}
use ioka.Tickets.{ticket_rows, build_ticket}
use ioka.Routes.{
  SearchResult, message_or_default, search_result, poll_offer_search, offer_by_id, get_ticket,
}

module _ {S : Type 0} (provider : AirlineProvider S) (a j key : String) (n : ℕ) (db : Db)
    (s : S) where
  -- After an `issue_order` that returned an order with a ticket number, whose passenger is what the
  -- order's body dumped to and whose offer is there, `get_ticket` answers the same agent with the
  -- table of that order, that offer and the passenger's names.
  pub get_ticket-issue_order :
      {order : Order} {agent : Agent} {payment : PaymentStatus} {db' : Db} {s' : S}
      → issue_order provider a j key n db s ≡ (ok (order, agent, payment), db', s')
      → truthy order.ticket_number ≡ true
      → (p : Passenger) → order.passenger ≡ dump_passenger p
      → (offer : Offer) → scalar (offer_by_id order.offer_id) db'.offers ≡ some offer
      → get_ticket j a db' ≡ ok (ticket_rows order offer p.first_name p.last_name)
  unfolding get_ticket get_order build_ticket dump_passenger
  get_ticket-issue_order {order} {agent} {payment} {db'} e numbered p dumped offer found =
      let (owned, _, done) =
        subst (λ (r : Result Issued × Db × S). IsRecorded a j (r.0, r.1)) e
          (issue_order-IsRecorded provider a j key n db s) in
      rw (owned, found, done, numbered, dumped)

abbrev pub found_offers :
    Moment → (ℕ → String) → String → FlightSearch → List ProviderOffer → Db → SearchResult
found_offers at new_id name search items db = record {
  search_id = search.id;
  status = completed;
  offers =
      select (λ o. o.search_id == search.id)
        (db.offers ++ offer_rows new_id name search.id 0 items);
  error = none;
}

-- The owner of a search sees how it ended.
abbrev pub seen : FlightSearch → Outcome (List ProviderOffer) → Db → SearchResult
seen search failure db = record {
  search_id = search.id;
  status = (ended_with failure).0;
  offers = select (λ o. o.search_id == search.id) db.offers;
  error = some ((ended_with failure).1, message_or_default (some (failure_message failure)));
}

module _ (search : FlightSearch) where
  pub get_own :
      (row : FlightSearch) (db : Db)
      → row.id ≡ search.id
      → scalar (search_by_id search.id) db.searches ≡ some row
      → get search.id row.agent_id db ≡ ok (row, offers_of row db)
  unfolding get get_owned
  get_own row db same found =
      let owned =
        scalar-finer (search_by_id search.id) (λ s. s.id == search.id && s.agent_id == row.agent_id)
          db.searches row found (rw (same, eq_refl search.id, eq_refl row.agent_id))
          (λ x h. ground arith) in
      rw owned

  result_seen :
      (failure : Outcome (List ProviderOffer)) (db : Db)
      → search_result (failed_search failure search, offers_of (failed_search failure search) db)
        ≡ seen search failure db
  unfolding search_result
  result_seen (returned items) db = refl
  result_seen (raised message class) db = refl
  result_seen (timed_out message) db = refl

  IsMissed-poll :
      (failure : Outcome (List ProviderOffer)) (db db' : Db)
      → IsMissed failure search db db'
      → poll_offer_search search.id search.agent_id db' ≡ ok (seen search failure db')
  unfolding poll_offer_search search_result
  IsMissed-poll failure db db' h =
      let own = get_own (failed_search failure search) db' refl (h.0) in
      rw own (ap ok (result_seen failure db'))

  IsEnded-poll :
      (integrity_text : String) (at : Moment) (new_id : ℕ → String) (name : String)
      (failure : Outcome (List ProviderOffer)) (db db' : Db)
      → is_failure failure ≡ true
      → IsEnded integrity_text at new_id name search failure db db'
      → poll_offer_search search.id search.agent_id db' ≡ ok (seen search failure db')
  IsEnded-poll integrity_text at new_id name (returned items) db db' f h = cc
  IsEnded-poll integrity_text at new_id name (raised message class) db db' f h =
      IsMissed-poll (raised message class) db db' h
  IsEnded-poll integrity_text at new_id name (timed_out message) db db' f h =
      IsMissed-poll (timed_out message) db db' h

  IsStored-poll :
      (at : Moment) (new_id : ℕ → String) (name : String) (items : List ProviderOffer) (db db' : Db)
      → search.error_code ≡ none
      → IsStored at new_id name search items db db'
      → poll_offer_search search.id search.agent_id db'
        ≡ ok (found_offers at new_id name search items db)
  unfolding poll_offer_search search_result
  IsStored-poll at new_id name items db db' clear h =
      let own =
        get_own (record search { status = completed; completed_at = some at.now }) db' refl (h.0) in
      rw (own, clear, h.1)

module _ (integrity_text : String) {S : Type 0} (provider : AirlineProvider S) (at : Moment)
    (new_id : ℕ → String) (db : Db) (s : S) (search : FlightSearch)
    (found : scalar (search_by_id search.id) db.searches ≡ some search)
    (open_search : is_final search.status ≡ false) where
  -- If the provider raises or times out on a search that is there and not final, polling it after
  -- `process` answers its agent with FAILED and `provider_error`, or TIMED_OUT and
  -- `provider_timeout`, with the failure's text, and with the offers that the search had before.
  pub poll_failed :
      (failure : Outcome (List ProviderOffer))
      → (provider.search (search_request search) s).0 ≡ failure
      → is_failure failure ≡ true
      → poll_offer_search search.id search.agent_id
          (process integrity_text provider at new_id search.id db s).0
        ≡ ok (seen search failure (process integrity_text provider at new_id search.id db s).0)
  poll_failed failure e f =
      IsEnded-poll search integrity_text at new_id provider.name failure db _ f (
        subst
          (λ o.
            IsEnded integrity_text at new_id provider.name search o db
              (process integrity_text provider at new_id search.id db s).0)
          e
          (process-IsEnded integrity_text provider at new_id search.id db s search found
            open_search))

  -- On a search that is there, not final and without an error: if the provider returns offers that
  -- violate no unique constraint, polling it after `process` answers its agent with COMPLETED, no
  -- error, and the search's offers, the new ones last.
  pub poll_completed :
      (items : List ProviderOffer) (t : S) (rows : List Offer)
      → provider.search (search_request search) s ≡ (returned items, t)
      → add_offers new_id provider.name search.id 0 items db.offers ≡ some rows
      → search.error_code ≡ none
      → poll_offer_search search.id search.agent_id
          (process integrity_text provider at new_id search.id db s).0
        ≡ ok (found_offers at new_id provider.name search items db)
  poll_completed items t rows e added clear =
      IsStored-poll search at new_id provider.name items db _ clear (
        subst
          (λ adds.
            IsAdded integrity_text at new_id provider.name search items adds db
              (process integrity_text provider at new_id search.id db s).0)
          added
          (subst
            (λ (o : Outcome (List ProviderOffer) × S).
              IsEnded integrity_text at new_id provider.name search o.0 db
                (process integrity_text provider at new_id search.id db s).0)
            e
            (process-IsEnded integrity_text provider at new_id search.id db s search found
              open_search)))
