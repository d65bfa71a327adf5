-- ===== src/Routes/Login.antt =====
-- `login` of app/api/routes.py.
pub mod Session
use ioka.Prelude.{String, Bool, not, Option}
use ioka.Prelude.Rows.{scalar}
use ioka.Bytes.{TextMethods}
use ioka.Security.Password.{Hashlib, verify_password}
use ioka.Security.Token.{Jwt, JwtSettings, create_access_token}
use ioka.Exceptions.{Result, ok, error, authentication, raise_if, or_raise, ◌>>=◌, ◌>>◌, Exception}
use ioka.Domain.Calendar.{Datetime}
use ioka.Models.{Db, Agent, agent_by_email}
use ioka.Schemas.{LoginRequest, TokenResponse}

abbrev pub bad_login : Exception
bad_login = error authentication "Invalid email or password"

abbrev pub token_response : String × Datetime → TokenResponse
token_response (token, expires_at) = record {
  access_token = token;
  token_type = "bearer";
  expires_at = expires_at;
}

unfoldable pub login :
    Hashlib
    → TextMethods
    → Jwt
    → JwtSettings
    → LoginRequest
    → String
    → Datetime
    → Db
    → Result TokenResponse
login hashlib methods lib settings payload jti now db = do
  agent ← or_raise (scalar (agent_by_email (methods.lower payload.email)) db.agents) bad_login
  raise_if (not agent.is_active) bad_login
  verified ← verify_password hashlib payload.password agent.password_hash
  raise_if (not verified) bad_login
  ok (token_response (create_access_token lib settings agent.id jti now))
