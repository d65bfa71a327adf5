-- ===== src/Search/StartTests.antt =====
-- Runs of `start`, `get` and the worker, and each of their theorems at an input that meets its
-- hypotheses. The server of the cache is a list of keys with their texts, and the queue a list.
use Prim.Native.String as Text
use Prim.Native.String.compare
use ioka.Prelude.{
  String, ◌≡◌, refl, Option, none, some, List, [], ◌∷◌, ◌++◌, ◌==◌, eq_refl, if◌then◌else◌,
}
use ioka.Json.{Fields, search_message, get_text}
use ioka.Domain.Calendar.{has_passed}
use ioka.Exceptions.{ok}
use ioka.Models.{FlightSearch, Moment}
use ioka.Schemas.{SearchRequest}
use ioka.Cache.{Reply, answered, broken, Redis, JsonLibrary, SearchCache, IsWorking, cache_get}
use ioka.Broker.{Broker}
use ioka.Search.Start.{inline, rabbitmq, Settings, World, start, new_search, read_cache, get}
use ioka.Search.Start.Reuse.{start-start}
use ioka.Search.Start.Created.{IsOwned, get-IsOwned}
use ioka.Fixture.{fresh_db, day, moment}

abbrev Store : Type 0
Store = List (String × String)

abbrev lookup : String → Store → Option String
lookup key [] = none
lookup key (entry ∷ store) =
    let rest = lookup key store in if entry.0 == key then some entry.1 else rest

abbrev redis : Redis Store
redis = record {
  get = λ key r. (answered (lookup key r), r);
  setex = λ key n value r. (answered tt, (key, value) ∷ r);
}

-- a text that begins with a mark, and then the id
abbrev written : Option String → String
written none = ""
written (some search_id) = Text.◌∷◌ "m" search_id

abbrev read : String → Reply Fields
read Text.[] = broken
read (Text.◌∷◌ c search_id) = answered (search_message search_id)

abbrev json : JsonLibrary
json = record { dumps = λ fields. written (get_text "search_id" fields); loads = read }

abbrev cache : SearchCache Store
cache = record { redis = redis; json = json; ttl_seconds = 900 }

cache-IsWorking : IsWorking cache
cache-IsWorking = record {
  get-setex = λ key value r. rw (eq_refl key);
  loads-dumps = λ search_id. refl;
  dumps_nonempty = λ search_id. rw (compare.cons-nil _ search_id);
}

abbrev settings : Settings
settings = record { search_dispatch_mode = inline; search_ttl_seconds = 900 }

abbrev one_hash : Fields → String
one_hash fields = "h1"

abbrev request : SearchRequest
request = record {
  origin = "TAS";
  destination = "DXB";
  departure_date = day;
  adults = 2;
  cabin_class = "ECONOMY";
}

abbrev at_start : Moment
at_start = record moment { new_id = "search-2" }

abbrev world : World Store (List String)
world = record { db = fresh_db; redis = []; queue = []; tasks = [] }

abbrev new : FlightSearch
new = new_search at_start 900 "agent-1" request

abbrev after : World Store (List String)
after = (start (some cache) none settings one_hash at_start "agent-1" request world).1

start-start_example :
    start (some cache) none settings one_hash moment "agent-1" request after ≡ (ok new, after)
unfolding read_cache cache_get has_passed
start-start_example =
    start-start cache none settings one_hash "agent-1" request cache-IsWorking at_start world refl
      refl moment refl

-- the queue in place of a task, with a broker that keeps the messages
abbrev broker : Broker (List String)
broker = record { send = λ key body q. (answered tt, q ++ body ∷ []); json = json }

abbrev queued : Settings
queued = record { search_dispatch_mode = rabbitmq; search_ttl_seconds = 900 }

get-IsOwned_example : IsOwned "search-1" "agent-1" fresh_db (get "search-1" "agent-1" fresh_db)
get-IsOwned_example = get-IsOwned "search-1" "agent-1" fresh_db
