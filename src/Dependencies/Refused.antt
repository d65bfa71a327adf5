-- ===== src/Dependencies/Refused.antt =====
-- How a request without a valid token is refused.
use ioka.Prelude.{
  ◌≡◌, ◌⊎◌, inl, inr, refl, ap, String, true, Option, none, some, arith, Option-cases,
}
use ioka.Bytes.{TextMethods}
use ioka.Security.Claims.{Claim, Claims, lookup, is_truthy}
use ioka.Security.Token.{Jwt, JwtSettings, decode_access_token}
use ioka.Security.Token.Accepted.{decode_access_token-IsAccepted}
use ioka.Security.Token.Refused.{is_authentication, refuses, refuses-decode_access_token}
use ioka.Exceptions.{Exception, Result, ok, err, statement_error, ◌>>=◌}
use ioka.Domain.Calendar.{Datetime}
use ioka.Models.{Db, Agent}
use ioka.Dependencies.{
  HttpAuthorizationCredentials, bind_key, get_agent, bearer_of, active, get_current_agent,
}

-- The refusals of a request.
abbrev pub IsRefusal : Exception → Type 0
IsRefusal e = (is_authentication e ≡ true) ⊎ (e ≡ statement_error)

err-injective {ℓ} : {A : Type ℓ} (d e : Exception) → ◌≡◌ {A = Result A} (err d) (err e) → d ≡ e
err-injective d e h = cc

-- A block of two steps raises what one of them raises.
bind-err {ℓ κ} :
    {A : Type ℓ} {B : Type κ} (m : Result A) (f : A → Result B) (P : Exception → Type 0)
    (e : Exception)
    → (m >>= f) ≡ err e
    → ((d : Exception) → m ≡ err d → P d)
    → ((a : A) (d : Exception) → m ≡ ok a → f a ≡ err d → P d)
    → P e
bind-err (ok a) f P e h first later = later a e refl h
bind-err (err d) f P e h first later =
    let same : d ≡ e = err-injective d e h in first e (ap err same)

IsRefusal-of_refuses {ℓ} :
    {A : Type ℓ} (m : Result A) (e : Exception) → refuses m ≡ true → m ≡ err e → IsRefusal e
IsRefusal-of_refuses (ok a) e all h = cc
IsRefusal-of_refuses (err d) e all h = inl (ground arith)

refuses-bearer_of :
    (methods : TextMethods) (credentials : Option HttpAuthorizationCredentials)
    → refuses (bearer_of methods credentials) ≡ true
refuses-bearer_of methods none = refl
refuses-bearer_of methods (some given) = ground arith

refuses-active : (found : Option Agent) → refuses (active found) ≡ true
refuses-active none = refl
refuses-active (some agent) = ground arith

-- The subject that was accepted is there; only binding it can fail.
get_agent-err :
    (bind : Claim → Option String) (payload : Claims) (db : Db) (e : Exception)
    → is_truthy (lookup "sub" payload) ≡ true
    → get_agent bind payload db ≡ err e
    → IsRefusal e
get_agent-err bind payload db e named h = elim (Option-cases (lookup "sub" payload)) [
  | inl missing ↦ ground arith
  | inr (subject, found) ↦ elim (Option-cases (bind_key bind subject)) [
    | inl unbound ↦ inr (ground arith)
    | inr (key, bound) ↦ ground arith
  ]
]

module _ (bind : Claim → Option String) (methods : TextMethods) (lib : Jwt)
    (settings : JwtSettings) where
  -- A request that no agent is found for is refused with an `AuthenticationError` (status 401), unless
  -- the driver cannot bind a subject that is no text.
  pub get_current_agent-IsRefusal :
      (credentials : Option HttpAuthorizationCredentials) (now : Datetime) (db : Db) (e : Exception)
      → get_current_agent bind methods lib settings credentials now db ≡ err e
      → IsRefusal e
  unfolding get_current_agent
  get_current_agent-IsRefusal credentials now db e h =
      let decode : HttpAuthorizationCredentials → Result Claims =
        λ given. decode_access_token lib settings given.credentials now in
      let answer : Claims → Result Agent = λ payload. get_agent bind payload db >>= active in
      bind-err (bearer_of methods credentials) (λ given. decode given >>= answer) IsRefusal e h
        (λ d. IsRefusal-of_refuses _ d (refuses-bearer_of methods credentials))
        (λ given d is_given rest.
          bind-err (decode given) answer IsRefusal d rest
            (λ c.
              IsRefusal-of_refuses _ c
                (refuses-decode_access_token lib settings given.credentials now))
            (λ claims c accepted last.
              bind-err (get_agent bind claims db) active IsRefusal c last
                (λ b.
                  get_agent-err bind claims db b
                    (decode_access_token-IsAccepted lib settings given.credentials now claims
                      accepted).subject)
                (λ found b is_found final. IsRefusal-of_refuses _ b (refuses-active found) final)))
