-- ===== src/Search/Worker.antt =====
-- app/worker.py: the worker hands the messages of the queue to `SearchService.process`.
use ioka.Prelude.{ℕ, String, ◌≡◌, ◌∙◌}
use ioka.Json.{search_message}
use ioka.Domain.Provider.{AirlineProvider}
use ioka.Models.{Db, Moment}
use ioka.Cache.{JsonLibrary, answered}
use ioka.Broker.{Settled, acked, consume, consume_payload}
use ioka.Search.Process.{process}
use ioka.Search.Process.Redelivery.{process-process}

module _ (integrity_text : String) {S : Type 0} (provider : AirlineProvider S) where
  -- `service.process` on the worker's state
  abbrev pub handle : Moment → (ℕ → String) → String → Db × S → Db × S
  handle at new_id search_id (db, s) = process integrity_text provider at new_id search_id db s

  unfoldable pub work : JsonLibrary → Moment → (ℕ → String) → String → Db × S → Settled (Db × S)
  work json at new_id body w = consume json (handle at new_id) body w

  module _ (json : JsonLibrary) (search_id : String)
      (read_back : json.loads (json.dumps (search_message search_id))
        ≡ answered (search_message search_id)) where
    abbrev body : String
    body = json.dumps (search_message search_id)

    -- The worker runs `process` for the search of the message.
    pub work_processes :
        (at : Moment) (new_id : ℕ → String) (db : Db) (s : S)
        → work json at new_id body (db, s)
          ≡ acked (process integrity_text provider at new_id search_id db s)
    unfolding work consume consume_payload
    work_processes at new_id db s = rw read_back

    -- Where `json` reads back what it wrote, a message that names a search is acknowledged; if the
    -- broker delivers it again after that, it is acknowledged again, and the database is as the first
    -- delivery left it and the provider was called no more.
    pub work-work :
        (at later : Moment) (new_id next_id : ℕ → String) (db : Db) (s t : S)
        → let (db', s') = process integrity_text provider at new_id search_id db s in
          (work json at new_id body (db, s) ≡ acked (db', s'))
          × (work json later next_id body (db', t) ≡ acked (db', t))
    work-work at later new_id next_id db s t = (
      work_processes at new_id db s,
      work_processes later next_id _ t
          ∙ rw (process-process integrity_text provider at later new_id next_id search_id db s t),
    )
