-- ===== src/Application.antt =====
-- app/main.py and app/infrastructure/database.py: what `lifespan` makes of the settings, and the
-- database that it leaves.
pub mod Steps
pub mod Writes
pub mod History
pub mod ForeignKeys
pub mod Uniqueness
pub mod Standing
pub mod Reachable
pub mod Money
pub mod Launch
mod ExampleRun
mod Tests
use ioka.Prelude.{String, Bool, Option, none, some, [], if◌then◌else◌}
use ioka.Json.{Fields}
use ioka.Bytes.{Bytes, TextMethods}
use ioka.Security.Claims.{Claim}
use ioka.Security.Password.{Hashlib}
use ioka.Security.Token.{Jwt, JwtSettings}
use ioka.Domain.Calendar.{Datetime}
use ioka.Domain.Provider.{AirlineProvider}
use ioka.Models.{Db}
use ioka.Cache.{Redis, JsonLibrary, SearchCache}
use ioka.Config
use ioka.Broker.{Broker}
use ioka.Search.Start.{Settings}
use ioka.Main.{SeedSettings, seed_default_agent}

-- What the handlers use: `app.state`, the settings, and the libraries.
pub record Services (R Q S : Type 0) : Type 0 where
  pub auto_create_schema : Bool
  pub seed_settings : SeedSettings
  pub search_settings : Settings
  pub search_cache : Option (SearchCache R)
  pub broker : Option (Broker Q)
  pub jwt_settings : JwtSettings
  pub jwt : Jwt
  pub hashlib : Hashlib
  pub methods : TextMethods
  pub bind : Claim → Option String
  pub request_hash : Fields → String
  -- the provider, as it answers at a time
  pub provider : Datetime → AirlineProvider S
  -- the text of an `IntegrityError`
  pub integrity_text : String

-- The libraries and servers that the services call.
pub record Libraries (R Q S : Type 0) : Type 0 where
  pub redis : Redis R
  pub json : JsonLibrary
  pub broker : Broker Q
  pub jwt : Jwt
  pub hashlib : Hashlib
  pub methods : TextMethods
  pub bind : Claim → Option String
  pub request_hash : Fields → String
  pub provider : Datetime → AirlineProvider S
  pub integrity_text : String

-- The services of `app.state`, and the settings as their readers take them.
abbrev pub app_state : {R Q S : Type 0} → Config.Settings → Libraries R Q S → Services R Q S
app_state settings libraries = record {
  auto_create_schema = settings.auto_create_schema;
  seed_settings = record {
    default_agent_email = settings.default_agent_email;
    default_agent_password = settings.default_agent_password;
    default_agent_balance = settings.default_agent_balance;
  };
  search_settings = record {
    search_dispatch_mode = settings.search_dispatch_mode;
    search_ttl_seconds = settings.search_ttl_seconds;
  };
  search_cache = some (record {
    redis = libraries.redis;
    json = libraries.json;
    ttl_seconds = settings.search_ttl_seconds;
  });
  broker = some libraries.broker;
  jwt_settings = record {
    jwt_secret = settings.jwt_secret;
    jwt_issuer = settings.jwt_issuer;
    jwt_audience = settings.jwt_audience;
    jwt_ttl_minutes = settings.jwt_ttl_minutes;
  };
  jwt = libraries.jwt;
  hashlib = libraries.hashlib;
  methods = libraries.methods;
  bind = libraries.bind;
  request_hash = libraries.request_hash;
  provider = libraries.provider;
  integrity_text = libraries.integrity_text;
}

-- A database with the tables of `Base.metadata`, and no rows.
abbrev pub empty_db : Db
empty_db = record {
  agents = [];
  searches = [];
  offers = [];
  orders = [];
  transactions = [];
  idempotency_records = [];
  audit_logs = [];
}

-- `create_all` adds the tables that are missing; `none` is a database without tables.
unfoldable pub create_schema : Option Db → Db
create_schema none = empty_db
create_schema (some db) = db

module _ {R Q S : Type 0} (services : Services R Q S) where
  -- a query of a table that is not there raises
  abbrev pub prepared : Option Db → Option Db
  prepared db = if services.auto_create_schema then some (create_schema db) else db

  abbrev pub seeded : String → Bytes → Option Db → Option Db
  seeded new_id salt none = none
  seeded new_id salt (some db) =
      seed_default_agent services.hashlib services.methods services.seed_settings new_id salt db

  -- `lifespan` up to its `yield`; `none` where it raises, and the application does not start
  unfoldable pub lifespan : String → Bytes → Option Db → Option Db
  lifespan new_id salt db = seeded new_id salt (prepared db)
