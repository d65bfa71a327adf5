-- ===== src/Application/Launch.antt =====
-- `lifespan`: the application starts on a database with or without its tables.
use ioka.Prelude.{◌≡◌, String, Option, some}
use ioka.Bytes.{Bytes}
use ioka.Security.Token.{create_access_token}
use ioka.Exceptions.{ok}
use ioka.Domain.Calendar.{Datetime}
use ioka.Models.{Db}
use ioka.Routes.Login.{token_response, login}
use ioka.Main.Seed.{default_login}
use ioka.Application.{Services, lifespan}

module _ {R Q S : Type 0} (services : Services R Q S) where
  -- What a first start leaves.
  pub record IsReady (new_id jti : String) (now : Datetime) (start : Option Db) : Type 0 where
    pub db : Db
    pub starts : start ≡ some db
    -- the default agent logs in
    pub logs_in :
        login services.hashlib services.methods services.jwt services.jwt_settings
          (default_login services.seed_settings)
          jti
          now
          db
        ≡ ok
            (token_response (create_access_token services.jwt services.jwt_settings new_id jti now))
    -- another start changes nothing
    pub starts_again :
        (other_id : String) (salt : Bytes) → lifespan services other_id salt (some db) ≡ some db
