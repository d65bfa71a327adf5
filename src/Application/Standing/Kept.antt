-- ===== src/Application/Standing/Kept.antt =====
-- What waiting requests have read stays, and every step of the application is a sequence of writes.
use ioka.Prelude.{◌≡◌, String, false, some, inl, inr, Bool-cases}
use ioka.Prelude.Lists.{any}
use ioka.Prelude.Each.{Each, Each-append, Each-scalar, Each-get, Each-remove_at}
use ioka.Prelude.Keys.{any-of_scalar}
use ioka.Bytes.{Bytes}
use ioka.Models.{Db, Offer, agent_by_id}
use ioka.Dependencies.Current.{get_current_agent-IsCurrent}
use ioka.Search.Start.{World}
use ioka.Search.Process.{begin_search}
use ioka.Booking.Create.{offered_to, finish_booking}
use ioka.Application.{Services, lifespan, create_schema}
use ioka.Application.Steps.{App, idle, Step, Reach}
use ioka.Application.Writes.{Write, Writes, done, Writes-keep}
use ioka.Application.Writes.Start.{seed_default_agent-Writes, request-Writes, answer-Writes}
use ioka.Application.Writes.Search.{start_found-Writes, begin_search-Writes, finish_search-Writes}
use ioka.Application.Writes.Create.{finish_booking-Writes}
use ioka.Application.History.{Writes-Keeps}
use ioka.Application.Standing.{
  IsAgent, IsBookable, IsStanding, with_search-Writes, with_search-lists, agents_stand,
  bookings_stand, bookable_offer-found, offers_kept, Offers, Answers-Allowed,
}

module _ {R Q S : Type 0} (services : Services R Q S) (P : Offer → Type 0)
    (offers : Offers P services.provider) where
  lifespan-Writes :
      (new_id : String) (salt : Bytes) (db db' : Db)
      → any (agent_by_id new_id) db.agents ≡ false
      → lifespan services new_id salt (some db) ≡ some db'
      → Writes P db db'
  unfolding lifespan create_schema
  lifespan-Writes new_id salt db db' fresh h = elim (Bool-cases services.auto_create_schema) [
    | inl creates ↦
        seed_default_agent-Writes P services.hashlib services.methods services.seed_settings new_id
          salt db db' fresh (rw creates at h)
    | inr leaves ↦
        seed_default_agent-Writes P services.hashlib services.methods services.seed_settings new_id
          salt db db' fresh (rw leaves at h)
  ]

  pub Step-Writes :
      {s t : App R Q} → Step services s t → IsStanding P s → Writes P s.world.db t.world.db
  Step-Writes (Step.launched new_id salt db fresh h) v = lifespan-Writes new_id salt _ db fresh h
  Step-Writes (Step.signed_in credentials now agent h) v = done
  Step-Writes {s} (Step.search_started n agent_id at payload cached redis h) v =
      start_found-Writes P services.search_cache services.broker services.search_settings
        services.request_hash at agent_id payload cached (record s.world { redis = redis })
        (Each-get (IsAgent s.world.db) s.agent_ids n agent_id h v.agent_ids)
  Step-Writes {s} (Step.search_begun search_id) v =
      with_search-Writes P search_id (begin_search search_id s.world.db) s
        (begin_search-Writes P search_id s.world.db)
  Step-Writes {s} (Step.search_ended n r at new_id outcome h e) v =
      finish_search-Writes P services.integrity_text at new_id (services.provider at.now).name
        r.search_id r.request s.world.db outcome
        (Answers-Allowed P services.provider r.request (services.provider at.now).name r.search_id
          outcome offers e)
  Step-Writes (Step.booking_begun n agent_id at payload key offer h read) v = done
  Step-Writes {s} (Step.booking_ended n b at payload_hash outcome h) v =
      let (is_agent, is_offer, allowed) =
        Each-get (IsBookable P s.world.db) s.bookings n b h v.bookings in
      finish_booking-Writes P at b.agent_id b.payload b.key payload_hash b.offer s.world.db is_agent
        is_offer outcome
  Step-Writes {s} (Step.issue_begun n agent_id order_id key h) v =
      request-Writes P agent_id order_id key (record { db = s.world.db; flights = s.flights })
  Step-Writes {s} (Step.issue_ended n d outcome) v =
      answer-Writes P n d outcome (record { db = s.world.db; flights = s.flights })

  lists-IsStanding :
      {s t : App R Q}
      → Step services s t
      → Each P t.world.db.offers
      → Each (IsAgent t.world.db) s.agent_ids
      → Each (IsBookable P t.world.db) s.bookings
      → IsStanding P t
  lists-IsStanding (Step.launched new_id salt db fresh h) o a b = record {
    offers = o;
    agent_ids = a;
    bookings = b;
  }
  lists-IsStanding {s} (Step.signed_in credentials now agent h) o a b = record {
    offers = o;
    agent_ids = Each-append (IsAgent s.world.db) s.agent_ids agent.id a stored;
    bookings = b;
  }
    where
      stored : IsAgent s.world.db agent.id
      stored =
          let current =
            (get_current_agent-IsCurrent services.bind services.methods services.jwt
                services.jwt_settings credentials now s.world.db agent).0
              h in
          any-of_scalar (λ x. x.id) (agent_by_id current.key) s.world.db.agents agent
            current.is_stored
  lists-IsStanding (Step.search_started n agent_id at payload cached redis h) o a b = record {
    offers = o;
    agent_ids = a;
    bookings = b;
  }
  lists-IsStanding {s} (Step.search_begun search_id) o a b =
      let (same_agents, same_bookings) =
        with_search-lists search_id (begin_search search_id s.world.db) s in
      record { offers = o; agent_ids = rw same_agents a; bookings = rw same_bookings b }
  lists-IsStanding (Step.search_ended n r at new_id outcome h e) o a b = record {
    offers = o;
    agent_ids = a;
    bookings = b;
  }
  lists-IsStanding {s} (Step.booking_begun n agent_id at payload key offer h read) o a b = record {
    offers = o;
    agent_ids = a;
    bookings = Each-append (IsBookable P s.world.db) s.bookings _ b (
      Each-get (IsAgent s.world.db) s.agent_ids n agent_id h a,
      any-of_scalar (λ x. x.id) (offered_to agent_id payload.offer_id s.world.db) s.world.db.offers
          offer (bookable_offer-found at agent_id payload.offer_id s.world.db offer read),
      Each-scalar P (offered_to agent_id payload.offer_id s.world.db) s.world.db.offers offer
          (bookable_offer-found at agent_id payload.offer_id s.world.db offer read) o,
    );
  }
  lists-IsStanding {s} (Step.booking_ended n x at payload_hash outcome h) o a b = record {
    offers = o;
    agent_ids = a;
    bookings =
        Each-remove_at
          (IsBookable P
            (finish_booking at x.agent_id x.payload x.key payload_hash x.offer outcome
              s.world.db).1)
          s.bookings n b;
  }
  lists-IsStanding (Step.issue_begun n agent_id order_id key h) o a b = record {
    offers = o;
    agent_ids = a;
    bookings = b;
  }
  lists-IsStanding (Step.issue_ended n d outcome) o a b = record {
    offers = o;
    agent_ids = a;
    bookings = b;
  }

  Step-IsStanding : {s t : App R Q} → Step services s t → IsStanding P s → IsStanding P t
  Step-IsStanding {s} {t} st v =
      let ws = Step-Writes st v in
      let kept = Writes-Keeps ws in
      lists-IsStanding st (Writes-keep P (λ db. Each P db.offers) (offers_kept P) ws v.offers)
        (agents_stand s.world.db t.world.db kept s.agent_ids v.agent_ids)
        (bookings_stand s.world.db t.world.db kept P s.bookings v.bookings)

  pub idle-IsStanding : (w : World R Q) → Each P w.db.offers → IsStanding P (idle w)
  idle-IsStanding w h = record { offers = h; agent_ids = tt; bookings = tt }

  pub Reach-IsStanding : {s t : App R Q} → Reach services s t → IsStanding P s → IsStanding P t
  Reach-IsStanding Reach.here v = v
  Reach-IsStanding (Reach.next r st) v = Step-IsStanding st (Reach-IsStanding r v)

  -- An invariant of each write is one of the application.
  pub Reach-keep :
      (I : Db → Type 0)
      → ((db db' : Db) → Write P db db' → I db → I db')
      → {s t : App R Q} → Reach services s t
      → IsStanding P s
      → I s.world.db
      → I t.world.db
  Reach-keep I keeps Reach.here v h = h
  Reach-keep I keeps (Reach.next r st) v h =
      Writes-keep P I keeps (Step-Writes st (Reach-IsStanding r v)) (Reach-keep I keeps r v h)
