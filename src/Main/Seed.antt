-- ===== src/Main/Seed.antt =====
-- The default agent can log in, and is added once.
use ioka.Prelude.{◌≡◌, refl, ◌∙◌, String, none, some, [], ◌∷◌, eq_refl}
use ioka.Prelude.Rows.{scalar, scalar-append}
use ioka.Bytes.{Bytes, IsBytes, TextMethods}
use ioka.Security.Password.{Hashlib, HashlibLaws}
use ioka.Security.Password.Verify.{verify_password-hash_password}
use ioka.Security.Token.{Jwt, JwtSettings, create_access_token}
use ioka.Exceptions.{ok}
use ioka.Domain.Calendar.{Datetime}
use ioka.Models.{Db, agent_by_email}
use ioka.Schemas.{LoginRequest}
use ioka.Routes.Login.{token_response, login}
use ioka.Main.{SeedSettings, default_agent, add_agent, seed_default_agent}

-- the credentials of the settings
abbrev pub default_login : SeedSettings → LoginRequest
default_login settings = record {
  email = settings.default_agent_email;
  password = settings.default_agent_password;
}

module _ (methods : TextMethods) (settings : SeedSettings) where
  found_added :
      (new_id hash : String) (db : Db)
      → scalar (agent_by_email (methods.lower settings.default_agent_email)) db.agents ≡ none
      → scalar
          (agent_by_email (methods.lower settings.default_agent_email))
          (add_agent db (default_agent methods settings new_id hash)).agents
        ≡ some (default_agent methods settings new_id hash)
  unfolding scalar
  found_added new_id hash db fresh =
      scalar-append (agent_by_email (methods.lower settings.default_agent_email)) db.agents
        (default_agent methods settings new_id hash ∷ [])
      ∙ rw (fresh, eq_refl (methods.lower settings.default_agent_email)) refl

module _ (hashlib : Hashlib) (laws : HashlibLaws hashlib) (methods : TextMethods)
    (settings : SeedSettings) where
  -- Where no agent has the default email, seeding adds one, with which the default email and
  -- password log in, under the laws of `hashlib` and `int` and with a salt of bytes; seeding again
  -- adds none.
  pub seed_default_agent-login :
      (jwt : Jwt) (jwt_settings : JwtSettings) (new_id jti : String) (salt : Bytes) (now : Datetime)
      (db : Db)
      → IsBytes salt
      → scalar (agent_by_email (methods.lower settings.default_agent_email)) db.agents ≡ none
      → (db' : Db) × (seed_default_agent hashlib methods settings new_id salt db ≡ some db')
        × (login hashlib methods jwt jwt_settings (default_login settings) jti now db'
            ≡ ok (token_response (create_access_token jwt jwt_settings new_id jti now)))
        × ((other_id : String) (other_salt : Bytes)
            → seed_default_agent hashlib methods settings other_id other_salt db' ≡ some db')
  unfolding seed_default_agent login
  seed_default_agent-login jwt jwt_settings new_id jti salt now db salt_bytes fresh =
      let password = settings.default_agent_password in
      let (encoded, hashed, verifies) =
        verify_password-hash_password hashlib laws salt salt_bytes password password in
      let found = found_added methods settings new_id encoded db fresh in
      let added = add_agent db (default_agent methods settings new_id encoded) in
      (added, rw (fresh, hashed) refl, rw (found, verifies.1 refl) refl, λ i t. rw found refl)
