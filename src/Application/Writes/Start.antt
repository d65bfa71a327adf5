-- ===== src/Application/Writes/Start.antt =====
-- The writes of the application's start: the default agent is added at most once. And of the steps
-- of an issue, in the state that its flights share.
use ioka.Prelude.{ℕ, ◌≡◌, refl, sym, String, false, Option, none, some, some-injective}
use mathlib.Core.Path.{subst}
use ioka.Prelude.Lists.{any, get_elem?}
use ioka.Prelude.Rows.{scalar, any-of_none}
use ioka.Bytes.{Bytes}
use ioka.Domain.Provider.{ProviderTicket, Outcome}
use ioka.Models.{Db, Offer, Agent, agent_by_id, agent_by_email}
use ioka.Booking.Issue.{begin_issue}
use ioka.Booking.Concurrent.{Flight, System, request, answer, land, step}
use ioka.Booking.Concurrent.Solvent.Schedules.{launch-db}
use ioka.Main.{SeedSettings, default_agent, add_default, seed_found, seed_default_agent}
use ioka.Application.Writes.{Write, Writes, done, more}
use ioka.Application.Writes.Issue.{begin_issue-Writes}
use ioka.Application.Writes.Settle.{finish_issue-Writes}
use ioka.Bytes.{TextMethods}
use ioka.Security.Password.{Hashlib}

module _ (P : Offer → Type 0) where
  module _ (hashlib : Hashlib) (methods : TextMethods) (settings : SeedSettings) where
    add_default-Writes :
        (new_id : String) (hash : Option String) (db db' : Db)
        → any (agent_by_id new_id) db.agents ≡ false
        → any (agent_by_email (methods.lower settings.default_agent_email)) db.agents ≡ false
        → add_default hashlib methods settings new_id hash db ≡ some db'
        → Writes P db db'
    add_default-Writes new_id none db db' fresh no_email h = cc
    add_default-Writes new_id (some hash) db db' fresh no_email h =
        subst (Writes P db) (some-injective _ _ h)
          (more done (Write.add_agent (default_agent methods settings new_id hash) fresh no_email))

    pub seed_default_agent-Writes :
        (new_id : String) (salt : Bytes) (db db' : Db)
        → any (agent_by_id new_id) db.agents ≡ false
        → seed_default_agent hashlib methods settings new_id salt db ≡ some db'
        → Writes P db db'
    unfolding seed_default_agent
    seed_default_agent-Writes new_id salt db db' fresh =
        by_found (scalar (agent_by_email email) db.agents) refl
      where
        email : String
        email = methods.lower settings.default_agent_email

        by_found :
            (found : Option Agent)
            → scalar (agent_by_email email) db.agents ≡ found
            → seed_found hashlib methods settings new_id salt found db ≡ some db'
            → Writes P db db'
        by_found (some agent) e h = subst (Writes P db) (some-injective _ _ h) done
        by_found none e h =
            add_default-Writes new_id _ db db' fresh
              (any-of_none (agent_by_email email) db.agents e) h

  pub request-Writes : (a j key : String) (s : System) → Writes P s.db (step (request a j key) s).db
  unfolding step
  request-Writes a j key s =
      subst (Writes P s.db) (sym (launch-db a j key (begin_issue a j key s.db) s.flights))
        (begin_issue-Writes P a j key s.db)

  land-Writes :
      (f : Option Flight) (n d : ℕ) (outcome : Outcome ProviderTicket) (s : System)
      → Writes P s.db (land f n d outcome s).db
  unfolding land
  land-Writes none n d outcome s = done
  land-Writes (some f) n d outcome s =
      finish_issue-Writes P f.agent_id f.order_id f.key d outcome s.db

  pub answer-Writes :
      (n d : ℕ) (outcome : Outcome ProviderTicket) (s : System)
      → Writes P s.db (step (answer n d outcome) s).db
  unfolding step
  answer-Writes n d outcome s = land-Writes (get_elem? s.flights n) n d outcome s
