-- ===== src/Main.antt =====
-- app/main.py: the agent that is there from the start, and the answer to an `AppError`. The default
-- balance of app/config.py is counted in hundredths.
pub mod Seed
use ioka.Prelude.{ℕ, String, Bool, true, Option, none, some, [], ◌∷◌, ◌++◌}
use ioka.Prelude.Int.{ℤ}
use ioka.Prelude.Rows.{scalar}
use ioka.Json.{Fields, text, object, nil, field}
use ioka.Bytes.{Bytes, TextMethods}
use ioka.Security.Password.{Hashlib, hash_password}
use ioka.Exceptions.{AppError, status_code, code}
use ioka.Models.{Db, Agent, agent_by_email}

pub record SeedSettings : Type 0 where
  pub default_agent_email : String
  pub default_agent_password : String
  pub default_agent_balance : ℤ

abbrev pub default_agent : TextMethods → SeedSettings → String → String → Agent
default_agent methods settings new_id password_hash = record {
  id = new_id;
  email = methods.lower settings.default_agent_email;
  password_hash = password_hash;
  balance = settings.default_agent_balance;
  currency = "UZS";
  is_active = true;
}

abbrev pub add_agent : Db → Agent → Db
add_agent db agent = record db { agents = db.agents ++ agent ∷ [] }

module _ (hashlib : Hashlib) (methods : TextMethods) (settings : SeedSettings) where
  abbrev pub add_default : String → Option String → Db → Option Db
  add_default new_id none db = none
  add_default new_id (some password_hash) db =
      some (add_agent db (default_agent methods settings new_id password_hash))

  abbrev pub seed_found : String → Bytes → Option Agent → Db → Option Db
  seed_found new_id salt (some agent) db = some db
  seed_found new_id salt none db =
      add_default new_id (hash_password hashlib settings.default_agent_password salt) db

  -- `none` where hashing the password raises
  unfoldable pub seed_default_agent : String → Bytes → Db → Option Db
  seed_default_agent new_id salt db =
      seed_found new_id salt
        (scalar (agent_by_email (methods.lower settings.default_agent_email)) db.agents) db

pub record JsonResponse : Type 0 where
  pub status_code : ℕ
  pub content : Fields

unfoldable pub app_error_handler : AppError → JsonResponse
app_error_handler exc = record {
  status_code = status_code exc.class;
  content =
      field "code" (text (code exc.class))
        (field "message" (text exc.message) (field "details" (object exc.details) nil));
}
