-- ===== src/Dependencies/Current.antt =====
-- Which agent a request acts as.
use ioka.Prelude.{
  refl, ◌↔◌, ◌≡◌, inl, inr, ap, sym, ◌∙◌, String, true, not, Option, none, some, ◌==◌, arith,
  Bool-cases, Option-cases,
}
use ioka.Prelude.Rows.{scalar}
use ioka.Bytes.{TextMethods}
use ioka.Security.Claims.{Claim, Claims, lookup}
use ioka.Security.Token.{Jwt, JwtSettings, decode_access_token}
use ioka.Security.Token.Accepted.{
  IsAccepted, decode_access_token-IsAccepted, decode_access_token-of_IsAccepted,
}
use ioka.Exceptions.{Result, ok, error, authentication, raise_if-ok, bind-ok, ok-injective, ◌>>=◌}
use ioka.Domain.Calendar.{Datetime}
use ioka.Models.{Db, Agent, agent_by_id}
use ioka.Dependencies.{
  HttpAuthorizationCredentials, bind_key, get_agent, bearer_of, active, get_current_agent,
}

module _ (bind : Claim → Option String) (methods : TextMethods) (lib : Jwt)
    (settings : JwtSettings) where
  -- What is known of the agent that is returned.
  pub record IsCurrent (credentials : Option HttpAuthorizationCredentials) (now : Datetime)
      (db : Db) (agent : Agent) : Type 0 where
    pub given : HttpAuthorizationCredentials
    pub has_credentials : credentials ≡ some given
    pub is_bearer : (methods.lower given.scheme == "bearer") ≡ true
    pub claims : Claims
    pub is_accepted : IsAccepted lib settings given.credentials now claims
    pub subject : Claim
    pub key : String
    pub has_subject : lookup "sub" claims ≡ some subject
    pub has_key : bind_key bind subject ≡ some key
    pub is_stored : scalar (agent_by_id key) db.agents ≡ some agent
    pub is_active : agent.is_active ≡ true

bearer_of-ok :
    (methods : TextMethods) (credentials : Option HttpAuthorizationCredentials)
    (given : HttpAuthorizationCredentials)
    → bearer_of methods credentials ≡ ok given
    → (credentials ≡ some given) × ((methods.lower given.scheme == "bearer") ≡ true)
bearer_of-ok methods none given h = cc
bearer_of-ok methods (some found) given h =
    elim (Bool-cases (methods.lower found.scheme == "bearer")) [
      | inl bearer ↦
          let same : found ≡ given = ok-injective _ _ (rw bearer at h) in
          (ap some same, rw (← same) bearer)
      | inr other ↦ ground arith
    ]

active-ok :
    (found : Option Agent) (agent : Agent)
    → active found ≡ ok agent
    → (found ≡ some agent) × (agent.is_active ≡ true)
active-ok none agent h = cc
active-ok (some found) agent h =
    let passed =
      raise_if-ok (not found.is_active) (error authentication "Agent is inactive or does not exist")
        (ok found) h in
    let same : found ≡ agent = ok-injective _ _ passed.1 in
    let live : found.is_active ≡ true = ground arith in
    (ap some same, ap (λ (a : Agent). a.is_active) (sym same) ∙ live)

get_agent-ok :
    (bind : Claim → Option String) (payload : Claims) (db : Db) (found : Option Agent)
    → get_agent bind payload db ≡ ok found
    → (subject : Claim) × (key : String) × (lookup "sub" payload ≡ some subject)
      × (bind_key bind subject ≡ some key)
      × (scalar (agent_by_id key) db.agents ≡ found)
get_agent-ok bind payload db found h = elim (Option-cases (lookup "sub" payload)) [
  | inl e ↦ ground arith
  | inr (subject, e) ↦ elim (Option-cases (bind_key bind subject)) [
    | inl f ↦ ground arith
    | inr (key, f) ↦ (subject, key, e, f, ok-injective _ _ (rw (e, f) at h))
  ]
]

module _ (bind : Claim → Option String) (methods : TextMethods) (lib : Jwt)
    (settings : JwtSettings) where
  current :
      (credentials : Option HttpAuthorizationCredentials) (now : Datetime) (db : Db) (agent : Agent)
      → get_current_agent bind methods lib settings credentials now db ≡ ok agent
      → IsCurrent bind methods lib settings credentials now db agent
  unfolding get_current_agent
  current credentials now db agent h =
      let decode : HttpAuthorizationCredentials → Result Claims =
        λ given. decode_access_token lib settings given.credentials now in
      let answer : Claims → Result Agent = λ payload. get_agent bind payload db >>= active in
      let (given, is_given, a) =
        bind-ok (bearer_of methods credentials) (λ given. decode given >>= answer) h in
      let (claims, accepted, b) = bind-ok (decode given) answer a in
      let (found, is_found, c) = bind-ok (get_agent bind claims db) active b in
      let (has, bearer) = bearer_of-ok methods credentials given is_given in
      let (subject, key, has_subject, has_key, stored) =
        get_agent-ok bind claims db found is_found in
      let (same, live) = active-ok found agent c in
      record {
        given = given;
        has_credentials = has;
        is_bearer = bearer;
        claims = claims;
        is_accepted =
            decode_access_token-IsAccepted lib settings given.credentials now claims accepted;
        subject = subject;
        key = key;
        has_subject = has_subject;
        has_key = has_key;
        is_stored = stored ∙ same;
        is_active = live;
      }

  of_current :
      (credentials : Option HttpAuthorizationCredentials) (now : Datetime) (db : Db) (agent : Agent)
      → IsCurrent bind methods lib settings credentials now db agent
      → get_current_agent bind methods lib settings credentials now db ≡ ok agent
  unfolding get_current_agent
  of_current credentials now db agent h =
      rw
        (
          h.has_credentials,
          h.is_bearer,
          decode_access_token-of_IsAccepted lib settings h.given.credentials now h.claims
              h.is_accepted,
          h.has_subject,
          h.has_key,
          h.is_stored,
          h.is_active,
        )
        refl

  -- A request acts as an agent exactly if it has credentials of the scheme `Bearer` whose token is
  -- accepted, and the agent is active and is the stored one whose id is the token's subject. A token
  -- is accepted if it has three parts, its third is the signature of the other two under the secret,
  -- its header names HS256, and its claims name the issuer, the audience, an expiry after the
  -- present and a subject.
  pub get_current_agent-IsCurrent :
      (credentials : Option HttpAuthorizationCredentials) (now : Datetime) (db : Db) (agent : Agent)
      → (get_current_agent bind methods lib settings credentials now db ≡ ok agent)
        ↔ IsCurrent bind methods lib settings credentials now db agent
  get_current_agent-IsCurrent credentials now db agent =
      (current credentials now db agent, of_current credentials now db agent)
