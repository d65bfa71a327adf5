-- ===== src/Dependencies/Tests.antt =====
-- The theorems on the agent of a request at inputs that meet their hypotheses.
use ioka.Prelude.{◌↔◌, ◌≡◌, ◌<◌, refl, String, true, Option, none, [], ◌∷◌}
use ioka.Prelude.Rows.{scalar}
use ioka.Bytes.{encode, split, rstrip}
use ioka.Security.Base64.{b64encode, urlsafe_b64encode, b64decode, urlsafe_b64decode}
use ioka.Security.Password.{encoded_hash, verify_password}
use ioka.Security.Claims.{Claim, Claims}
use ioka.Security.Token.{create_access_token, decode_access_token, payload_of, seconds, Jwt}
use ioka.Exceptions.{ok, error, authentication}
use ioka.Domain.Calendar.{Datetime}
use ioka.Models.{Db, Agent}
use ioka.Schemas.{LoginRequest, TokenResponse}
use ioka.Dependencies.{get_current_agent}
use ioka.Dependencies.Current.{IsCurrent, get_current_agent-IsCurrent}
use ioka.Dependencies.Refused.{IsRefusal, get_current_agent-IsRefusal}
use ioka.Routes.Login.{token_response, login}
use ioka.Routes.Login.Session.{bearer, login-get_current_agent}
use ioka.Fixture.{fresh_db, agent, at_time}
use ioka.Fixture.Libraries.{methods, hashlib, digest, jwt, jwt-JwtLaws, jwt_settings}

-- No other claim than a text is bound.
abbrev bind : Claim → Option String
bind other = none

abbrev known : Agent
known = record agent { password_hash = encoded_hash (7 ∷ []) (digest (encode "abc12345!")) }

abbrev db : Db
db = record fresh_db { agents = known ∷ [] }

abbrev payload : Claims
payload = payload_of (jwt Claims.nil) jwt_settings "agent-1" "id" (at_time 0)

abbrev library : Jwt
library = jwt payload

abbrev given : TokenResponse
given = token_response (create_access_token library jwt_settings "agent-1" "id" (at_time 0))

abbrev request : LoginRequest
request = record { email = "test@example.com"; password = "abc12345!" }

logged_in : login hashlib methods library jwt_settings request "id" (at_time 0) db ≡ ok given
unfolding login scalar verify_password split encode b64encode urlsafe_b64encode rstrip b64decode
    urlsafe_b64decode create_access_token
logged_in = refl

known_agent :
    get_current_agent bind methods library jwt_settings (bearer given) (at_time 1) db ≡ ok known
unfolding get_current_agent decode_access_token scalar split encode b64encode urlsafe_b64encode
    rstrip b64decode urlsafe_b64decode create_access_token
known_agent = refl

login-get_current_agent_example :
    (verify_password hashlib "abc12345!" known.password_hash ≡ ok true)
    × ((later : Datetime)
        → seconds later < seconds given.expires_at
        → get_current_agent bind methods library jwt_settings (bearer given) later db ≡ ok known)
unfolding encode scalar
login-get_current_agent_example =
    login-get_current_agent hashlib methods library jwt_settings request "id" (at_time 0) db bind
      given known (jwt-JwtLaws payload) refl refl refl refl refl refl logged_in

get_current_agent-IsCurrent_example :
    (get_current_agent bind methods library jwt_settings (bearer given) (at_time 1) db ≡ ok known)
    ↔ IsCurrent bind methods library jwt_settings (bearer given) (at_time 1) db known
get_current_agent-IsCurrent_example =
    get_current_agent-IsCurrent bind methods library jwt_settings (bearer given) (at_time 1) db
      known

get_current_agent-IsRefusal_example : IsRefusal (error authentication "Bearer token is required")
unfolding get_current_agent
get_current_agent-IsRefusal_example =
    get_current_agent-IsRefusal bind methods library jwt_settings none (at_time 1) db
      (error authentication "Bearer token is required") refl
