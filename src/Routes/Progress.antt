-- ===== src/Routes/Progress.antt =====
-- From the request of a search to its end, through `start`, `process` and the polling handler.
use ioka.Prelude.{String, ◌≡◌, true}
use ioka.Domain.Enums.{is_final}
use ioka.Exceptions.{ok}
use ioka.Models.{Db}
use ioka.Broker.{Broker}
use ioka.Routes.{SearchResult, poll_offer_search}

-- Polling the search answers its agent with a status that is final.
abbrev pub HasEnded : String → String → Db → Type 0
HasEnded search_id a db =
    (answer : SearchResult) × (poll_offer_search search_id a db ≡ ok answer)
    × (is_final answer.status ≡ true)
