-- ===== src/Routes/Login/Session.antt =====
-- What a login gives.
use ioka.Prelude.{
  some-injective, ◌≡◌, ◌<◌, refl, ap, sym, ◌∙◌, String, Bool, true, false, not, Option, some, ◌==◌,
  arith, leb,
}
use mathlib.Core.Path.{subst}
use ioka.Prelude.Rows.{scalar}
use ioka.Bytes.{TextMethods}
use ioka.Security.Password.{Hashlib, verify_password}
use ioka.Security.Claims.{Claim}
use ioka.Security.Token.{
  Jwt, JwtLaws, ReadsBack, jwt_header, JwtSettings, seconds, payload_of, create_access_token,
}
use ioka.Security.Token.Decode.{decode_access_token-create_access_token}
use ioka.Exceptions.{
  Result, ok, raise_if-ok, or_raise-ok, bind-ok, ok-injective, raise_if, ◌>>=◌, ◌>>◌,
}
use ioka.Domain.Calendar.{Datetime}
use ioka.Models.{Db, Agent, agent_by_email, agent_by_id}
use ioka.Schemas.{LoginRequest, TokenResponse}
use ioka.Dependencies.{HttpAuthorizationCredentials, get_current_agent}
use ioka.Routes.Login.{bad_login, token_response, login}

-- the credentials of a request that carries the token of a login
abbrev pub bearer : TokenResponse → Option HttpAuthorizationCredentials
bearer given = some (record { scheme = "Bearer"; credentials = given.access_token })

module _ (hashlib : Hashlib) (methods : TextMethods) (lib : Jwt) (settings : JwtSettings)
    (payload : LoginRequest) (jti : String) (now : Datetime) (db : Db) where
  login-ok :
      (given : TokenResponse)
      → login hashlib methods lib settings payload jti now db ≡ ok given
      → (agent : Agent) × (scalar (agent_by_email (methods.lower payload.email)) db.agents
          ≡ some agent)
        × (agent.is_active ≡ true)
        × (verify_password hashlib payload.password agent.password_hash ≡ ok true)
        × (given ≡ token_response (create_access_token lib settings agent.id jti now))
  unfolding login
  login-ok given h =
      let response : Agent → TokenResponse =
        λ agent. token_response (create_access_token lib settings agent.id jti now) in
      let granted : Agent → Bool → Result TokenResponse =
        λ agent verified. raise_if (not verified) bad_login >> ok (response agent) in
      let verified : Agent → Result TokenResponse =
        λ agent. verify_password hashlib payload.password agent.password_hash >>= granted agent in
      let (agent, found, a) =
        or_raise-ok (scalar (agent_by_email (methods.lower payload.email)) db.agents) bad_login
          (λ agent. raise_if (not agent.is_active) bad_login >> verified agent) h in
      let (live, b) = raise_if-ok (not agent.is_active) bad_login (verified agent) a in
      let (right, is_right, c) =
        bind-ok (verify_password hashlib payload.password agent.password_hash) (granted agent) b in
      let (passed, d) = raise_if-ok (not right) bad_login (ok (response agent)) c in
      let is_true : right ≡ true = ground arith in
      (agent, found, ground arith, is_right ∙ ap ok is_true, sym (ok-injective _ _ d))

  -- After a login that gave a token, the password was one that the agent's stored hash verifies, and
  -- requests with the token act as that agent at every moment before its expiry, if digests are
  -- bytes, dumps are ASCII, `json` reads back the header and the claims, the lower case of `Bearer`
  -- is `bearer`, and the agent of that email is found by its id, which is not empty.
  pub login-get_current_agent :
      (bind : Claim → Option String) (given : TokenResponse) (agent : Agent)
      → JwtLaws lib
      → ReadsBack lib jwt_header
      → ReadsBack lib (payload_of lib settings agent.id jti now)
      → (methods.lower "Bearer" == "bearer") ≡ true
      → scalar (agent_by_email (methods.lower payload.email)) db.agents ≡ some agent
      → scalar (agent_by_id agent.id) db.agents ≡ some agent
      → (agent.id == "") ≡ false
      → login hashlib methods lib settings payload jti now db ≡ ok given
      → (verify_password hashlib payload.password agent.password_hash ≡ ok true)
        × ((later : Datetime)
            → seconds later < seconds given.expires_at
            → get_current_agent bind methods lib settings (bearer given) later db ≡ ok agent)
  unfolding get_current_agent
  login-get_current_agent bind given agent laws reads_header reads_claims lowers found by_id named
        h =
      let (other, found', live', verified', is_given') = login-ok given h in
      let same : other ≡ agent = some-injective _ _ (sym found' ∙ found) in
      let live : agent.is_active ≡ true = rw (← same) live' in
      let expires : Datetime = (create_access_token lib settings agent.id jti now).1 in
      let response : TokenResponse =
        token_response (create_access_token lib settings agent.id jti now) in
      let is_given : given ≡ response =
        is_given'
        ∙ ap (λ (a : Agent). token_response (create_access_token lib settings a.id jti now)) same in
      let again : (later : Datetime)
          → seconds later < seconds expires
          → get_current_agent bind methods lib settings (bearer response) later db ≡ ok agent =
        λ later before.
          let early : leb (seconds expires) (seconds later) ≡ false = ground arith in
          let decoded =
            decode_access_token-create_access_token lib laws settings agent.id jti now later named
              reads_header reads_claims in
          rw (lowers, decoded, early, by_id, live) refl in
      (
        subst (λ (a : Agent). verify_password hashlib payload.password a.password_hash ≡ ok true)
            same verified',
        subst
            (λ r.
              (later : Datetime)
              → seconds later < seconds r.expires_at
              → get_current_agent bind methods lib settings (bearer r) later db ≡ ok agent)
            (sym is_given) again,
      )
