-- ===== src/Routes/Handlers/Started.antt =====
-- What a request for a search stores, from the body as it came to the row and the answer.
use Prim.Native.String as Text
use ioka.Prelude.{◌≡◌, ◌⊎◌, inl, inr, refl, String, true, false, Option, none, some, [], ◌∷◌, ◌++◌}
use ioka.Prelude.Lists.{any}
use ioka.Json.{Fields}
use ioka.Bytes.{TextMethods, is_ascii}
use ioka.Domain.Calendar.{Date}
use ioka.Domain.Enums.{pending}
use ioka.Exceptions.{Exception, ok, err}
use ioka.Models.{Db, Agent, FlightSearch, Moment, search_by_id}
use ioka.Schemas.{SearchRequest}
use ioka.Schemas.Validation.{SearchBody, validate_search}
use ioka.Schemas.Validation.Bounds.{TextLaws, IsBounded, validate_search-IsBounded}
use ioka.Schemas.Responses.{SearchAccepted}
use ioka.Cache.{SearchCache, Reply, broken}
use ioka.Broker.{Broker, publish}
use ioka.Search.Start.{
  DispatchMode, inline, rabbitmq, Settings, World, cached_search, search_key, read_cache, published,
  dispatch,
}
use ioka.Search.Start.Reuse.{start_stores, stored, created}
use ioka.Search.Start.Created.{start-IsCreated}
use ioka.Routes.Handlers.{Answer, failed, start_offer_search, search_accepted}

-- The request of a row.
abbrev pub request_of : FlightSearch → SearchRequest
request_of row = record {
  origin = row.origin;
  destination = row.destination;
  departure_date = row.departure_date;
  adults = row.adults;
  cabin_class = row.cabin_class;
}

-- One new row, of the agent and in range, and the answer about it.
pub record IsStarted (methods : TextMethods) (today : Date) (agent : Agent) (db db' : Db)
    (answer : Answer SearchAccepted) : Type 0 where
  pub row : FlightSearch
  pub stored_row : db'.searches ≡ db.searches ++ row ∷ []
  pub owner : row.agent_id ≡ agent.id
  pub is_pending : row.status ≡ pending
  pub bounded : IsBounded methods today (request_of row)
  pub answers :
      (answer
        ≡ Answer.answered (record {
          search_id = row.id;
          status = "PENDING";
          poll_url = Text.◌++◌ "/travel/avia/offers/search/" row.id;
          expires_at = row.expires_at;
        }))
      ⊎ ((e : Exception) × (answer ≡ failed e))

published-answer :
    {R Q : Type 0} (search : FlightSearch) (w : World R Q) (reply : Reply (Unit {0}) × Q)
    → ((published search w reply).0 ≡ ok search)
      ⊎ ((e : Exception) × ((published search w reply).0 ≡ err e))
published-answer search w (Reply.answered done, q) = inl refl
published-answer search w (broken, q) = inr (_, refl)

dispatch-answer :
    {R Q : Type 0} (mode : DispatchMode) (broker : Option (Broker Q)) (search : FlightSearch)
    (w : World R Q)
    → ((dispatch mode broker search w).0 ≡ ok search)
      ⊎ ((e : Exception) × ((dispatch mode broker search w).0 ≡ err e))
unfolding dispatch
dispatch-answer inline broker search w = inl refl
dispatch-answer rabbitmq none search w = inr (_, refl)
dispatch-answer rabbitmq (some b) search w = published-answer search w (publish b search.id w.queue)

module _ {R Q : Type 0} (cache : Option (SearchCache R)) (broker : Option (Broker Q))
    (settings : Settings) (request_hash : Fields → String) (methods : TextMethods)
    (laws : TextLaws methods) (at : Moment) (today : Date) (body : SearchBody) (agent : Agent)
    (w : World R Q) where
  -- An agent's request for a search that is valid and that the cache does not answer appends one
  -- row, PENDING, of the agent, with airport codes of letters no wider than their columns, a day that
  -- is not over, one to nine adults and a known cabin; the answer is about that row, or the dispatch
  -- has failed. The airport codes came as ASCII texts, the drawn id is new, and the laws of
  -- stripping and of upper case hold.
  pub start_offer_search-IsStarted :
      (payload : SearchRequest)
      → validate_search methods today body ≡ some payload
      → is_ascii body.origin ≡ true
      → is_ascii body.destination ≡ true
      → cached_search at.now
          (read_cache cache (search_key request_hash agent.id payload) w.redis).0
          w.db
        ≡ none
      → any (search_by_id at.new_id) w.db.searches ≡ false
      → IsStarted methods today agent w.db
          (start_offer_search cache broker settings request_hash methods at today body
            (ok agent)
            w).1.db
          (start_offer_search cache broker settings request_hash methods at today body
            (ok agent)
            w).0
  unfolding start_offer_search search_accepted
  start_offer_search-IsStarted payload valid from_ascii to_ascii missed fresh =
      let row = created cache broker settings request_hash at agent.id payload w in
      let before = stored cache broker settings request_hash at agent.id payload w in
      let stores =
        start_stores cache broker settings request_hash at agent.id payload w missed fresh in
      let new =
        start-IsCreated cache broker settings request_hash at agent.id payload w missed fresh in
      let result = dispatch-answer settings.search_dispatch_mode broker row before in
      rw valid (record {
        row = row;
        stored_row = new.0;
        owner = refl;
        is_pending = refl;
        bounded =
            validate_search-IsBounded methods laws today body payload from_ascii to_ascii valid;
        answers = rw stores (elim result [
          | inl accepted ↦ inl (rw accepted refl)
          | inr (e, raised) ↦ inr (e, rw raised refl)
        ]);
      })
