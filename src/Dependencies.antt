-- ===== src/Dependencies.antt =====
-- app/api/dependencies.py: the agent that a request's bearer token names. Under which text the
-- database's driver looks for a key that is no text is a parameter; it may raise.
pub mod Current
pub mod Refused
mod Tests
use ioka.Prelude.{String, Bool, not, Option, none, some, ◌==◌}
use ioka.Prelude.Rows.{scalar}
use ioka.Bytes.{TextMethods}
use ioka.Security.Claims.{Claim, Claims, lookup}
use ioka.Security.Token.{Jwt, JwtSettings, decode_access_token}
use ioka.Exceptions.{
  Result, ok, err, error, authentication, key_error, statement_error, raise_if, or_raise, ◌>>=◌,
  ◌>>◌,
}
use ioka.Domain.Calendar.{Datetime}
use ioka.Models.{Db, Agent, agent_by_id}

pub record HttpAuthorizationCredentials : Type 0 where
  pub scheme : String
  pub credentials : String

module _ (bind : Claim → Option String) where
  abbrev pub bind_key : Claim → Option String
  bind_key (Claim.text s) = some s
  bind_key other = bind other

  -- `session.get(Agent, payload["sub"])`
  abbrev pub get_agent : Claims → Db → Result (Option Agent)
  get_agent payload db = do
    subject ← or_raise (lookup "sub" payload) (key_error "sub")
    key ← or_raise (bind_key subject) statement_error
    ok (scalar (agent_by_id key) db.agents)

-- `credentials.scheme.lower() == "bearer"`, if there are credentials
abbrev pub bearer_of :
    TextMethods → Option HttpAuthorizationCredentials → Result HttpAuthorizationCredentials
bearer_of methods none = err (error authentication "Bearer token is required")
bearer_of methods (some given) =
    raise_if (not (methods.lower given.scheme == "bearer"))
      (error authentication "Bearer token is required")
    >> ok given

-- `if not agent or not agent.is_active: raise ...`
abbrev pub active : Option Agent → Result Agent
active none = err (error authentication "Agent is inactive or does not exist")
active (some agent) =
    raise_if (not agent.is_active) (error authentication "Agent is inactive or does not exist")
    >> ok agent

unfoldable pub get_current_agent :
    (Claim → Option String)
    → TextMethods
    → Jwt
    → JwtSettings
    → Option HttpAuthorizationCredentials
    → Datetime
    → Db
    → Result Agent
get_current_agent bind methods lib settings credentials now db = do
  given ← bearer_of methods credentials
  payload ← decode_access_token lib settings given.credentials now
  agent ← get_agent bind payload db
  active agent
