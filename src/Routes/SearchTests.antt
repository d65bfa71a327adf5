-- ===== src/Routes/SearchTests.antt =====
-- The theorems on a search from its request to its end, at inputs that meet their hypotheses.
use ioka.Prelude.{◌==◌, if◌then◌else◌, ℕ, ◌≡◌, refl, String, none, some, [], suc}
use ioka.Json.{Fields, search_message}
use ioka.Bytes.{TextMethods}
use ioka.Cache.{JsonLibrary, answered}
use ioka.Domain.Provider.{AirlineProvider, returned}
use ioka.Exceptions.{ok}
use ioka.Models.{Db, Moment}
use ioka.Schemas.{SearchRequest}
use ioka.Schemas.Validation.{
  text_field, SearchBody, sized, normalize_iata, iata_field, adults_field, cabin_field, is_before,
  ensure_not_in_past, validate_search,
}
use ioka.Search.Start.{inline, Settings, World, start, read_cache}
use ioka.Search.Process.{process}
use ioka.Routes.Handlers.{start_offer_search}
use ioka.Routes.Handlers.Started.{IsStarted, start_offer_search-IsStarted}
use ioka.Fixture.{fresh_db, agent, day, moment, booking, ticket, unavailable, constant_provider}
use ioka.Fixture.Libraries.{methods, methods-TextLaws}

abbrev settings : Settings
settings = record { search_dispatch_mode = inline; search_ttl_seconds = 900 }

abbrev one_hash : Fields → String
one_hash fields = "h1"

abbrev at_start : Moment
at_start = record moment { new_id = "search-2" }

abbrev world : World ℕ ℕ
world = record { db = fresh_db; redis = 0; queue = 0; tasks = [] }

abbrev body : SearchBody
body = record {
  origin = "TAS";
  destination = "DXB";
  departure_date = day;
  adults = none;
  cabin_class = some "BUSINESS";
}

abbrev request : SearchRequest
request = record {
  origin = "TAS";
  destination = "DXB";
  departure_date = day;
  adults = 1;
  cabin_class = "BUSINESS";
}

is_valid : validate_search methods day body ≡ some request
unfolding validate_search iata_field sized normalize_iata adults_field cabin_field
    ensure_not_in_past is_before
is_valid = refl

start_offer_search-IsStarted_example :
    IsStarted methods day agent fresh_db
      (start_offer_search none none settings one_hash methods at_start day body
        (ok agent)
        world).1.db
      (start_offer_search none none settings one_hash methods at_start day body (ok agent) world).0
unfolding read_cache
start_offer_search-IsStarted_example =
    start_offer_search-IsStarted none none settings one_hash methods methods-TextLaws at_start day
      body agent world request is_valid refl refl refl refl

abbrev failing : AirlineProvider ℕ
failing = record (constant_provider (returned booking) (returned ticket)) {
  search = λ request s. (unavailable, suc s);
}

abbrev uuids : ℕ → String
uuids n = "uuid"

abbrev json : JsonLibrary
json = record { dumps = λ fields. ""; loads = λ body. answered (search_message "search-2") }

abbrev first_run : Db × ℕ
first_run =
    process "integrity" failing moment uuids "search-2"
      (start none none settings one_hash at_start "agent-1" request world).1.db 0

-- Python strips the blank before it looks at the letters, and after it has counted them.
abbrev stripping : TextMethods
stripping = record methods {
  strip = λ s. if s == " AB" then "AB" else if s == "   " then "" else s;
}

two_letters : iata_field stripping " AB" ≡ some "AB"
unfolding iata_field sized normalize_iata
two_letters = refl

blank_name : text_field stripping 1 100 "   " ≡ some ""
unfolding text_field sized
blank_name = refl
