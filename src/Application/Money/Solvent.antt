-- ===== src/Application/Money/Solvent.antt =====
-- No state that the application reaches overdraws a balance.
use ioka.Prelude.{
  ◌≡◌, sym, ap, String, Option, none, some, List, [], ◌∷◌, inl, inr, Bool-cases, some-injective,
}
use mathlib.Core.Path.{subst}
use ioka.Prelude.Int.{pos, ◌≤ℤ◌}
use ioka.Prelude.Each.{Each, Each-append, Each-get}
use ioka.Prelude.Keys.{Each-weaken}
use ioka.Bytes.{Bytes, TextMethods}
use ioka.Security.Password.{Hashlib}
use ioka.Domain.Calendar.{Datetime}
use ioka.Domain.Provider.{
  AirlineProvider, ProviderSearchRequest, ProviderOffer, ProviderBooking, Outcome, returned, raised,
  timed_out,
}
use ioka.Audit.{add_provider_audit}
use ioka.Models.{Db, Agent, Offer, Moment}
use ioka.Schemas.{OrderCreate}
use ioka.Search.Start.{World}
use ioka.Search.Process.{begin_search, offer_row}
use ioka.Booking.Create.{finish_booking, audit_failed_booking}
use ioka.Booking.Concurrent.{request, answer, run}
use ioka.Booking.Concurrent.Solvent.{HasFunds, IsPriced, IsPaid, IsSolvent}
use ioka.Booking.Concurrent.Solvent.Finish.{save_order-IsSolvent}
use ioka.Booking.Concurrent.Solvent.Schedules.{run-IsSolvent}
use ioka.Main.{SeedSettings, default_agent, add_default, seed_found, seed_default_agent}
use ioka.Application.{Services, lifespan, create_schema}
use ioka.Application.Steps.{App, idle, with_search, Step, Reach}
use ioka.Application.Standing.{IsBookable, IsStanding, Offers}
use ioka.Application.Standing.Kept.{idle-IsStanding, Reach-IsStanding}
use ioka.Application.Money.{tables, begin_search-tables, finish_search-tables, start_found-tables}

IsSolvent-tables : (db db' : Db) → tables db' ≡ tables db → IsSolvent db → IsSolvent db'
IsSolvent-tables db db' same v = record {
  balances = subst (Each HasFunds) (sym (ap (λ t. t.0) same)) v.balances;
  prices = subst (Each IsPriced) (sym (ap (λ t. t.1) same)) v.prices;
  payments = subst (Each IsPaid) (sym (ap (λ t. t.2) same)) v.payments;
}

-- An offer without a negative price.
abbrev pub IsPricedOffer : Offer → Type 0
IsPricedOffer o = pos 0 ≤ℤ o.total_amount

abbrev pub IsPricedItem : ProviderOffer → Type 0
IsPricedItem item = pos 0 ≤ℤ item.total_amount

-- The provider asks no negative price, whenever it is asked.
abbrev pub HasPrices : {S : Type 0} → (Datetime → AirlineProvider S) → Type 0
HasPrices {S} provider =
    (now : Datetime) (asked : ProviderSearchRequest) (state : S) (items : List ProviderOffer)
    → ((provider now).search asked state).0 ≡ returned items
    → Each IsPricedItem items

module _ (hashlib : Hashlib) (methods : TextMethods) (settings : SeedSettings)
    (funded : pos 0 ≤ℤ settings.default_agent_balance) where
  add_default-IsSolvent :
      (new_id : String) (hash : Option String) (db db' : Db)
      → IsSolvent db
      → add_default hashlib methods settings new_id hash db ≡ some db'
      → IsSolvent db'
  add_default-IsSolvent new_id none db db' v h = cc
  add_default-IsSolvent new_id (some hash) db db' v h =
      subst IsSolvent (some-injective _ _ h) (record {
        balances =
            Each-append HasFunds db.agents (default_agent methods settings new_id hash) v.balances
              funded;
        prices = v.prices;
        payments = v.payments;
      })

  seed_found-IsSolvent :
      (new_id : String) (salt : Bytes) (found : Option Agent) (db db' : Db)
      → IsSolvent db
      → seed_found hashlib methods settings new_id salt found db ≡ some db'
      → IsSolvent db'
  seed_found-IsSolvent new_id salt (some agent) db db' v h =
      subst IsSolvent (some-injective _ _ h) v
  seed_found-IsSolvent new_id salt none db db' v h = add_default-IsSolvent new_id _ db db' v h

finish_booking-IsSolvent :
    (at : Moment) (agent_id : String) (payload : OrderCreate) (key payload_hash : String)
    (offer : Offer) (outcome : Outcome ProviderBooking) (db : Db)
    → IsPricedOffer offer
    → IsSolvent db
    → IsSolvent (finish_booking at agent_id payload key payload_hash offer outcome db).1
unfolding finish_booking audit_failed_booking add_provider_audit
finish_booking-IsSolvent at agent_id payload key payload_hash offer (returned booking) db priced v =
    save_order-IsSolvent at agent_id payload key payload_hash offer booking db priced v
finish_booking-IsSolvent at agent_id payload key payload_hash offer (raised message class) db priced
      v =
    record { balances = v.balances; prices = v.prices; payments = v.payments }
finish_booking-IsSolvent at agent_id payload key payload_hash offer (timed_out message) db priced
      v =
    record { balances = v.balances; prices = v.prices; payments = v.payments }

module _ {R Q : Type 0} where
  with_search-IsSolvent :
      (search_id : String) (r : Option ProviderSearchRequest × Db) (s : App R Q)
      → IsSolvent r.1
      → IsSolvent (with_search search_id r s).world.db
  with_search-IsSolvent search_id (none, db) s v = v
  with_search-IsSolvent search_id (some asked, db) s v = v

module _ {R Q S : Type 0} (services : Services R Q S) (prices : HasPrices services.provider)
    (funded : pos 0 ≤ℤ services.seed_settings.default_agent_balance) where
  offers : Offers IsPricedOffer services.provider
  unfolding offer_row
  offers now asked state items e name search_id =
      Each-weaken IsPricedItem _ items (λ item priced id. priced) (prices now asked state items e)

  lifespan-IsSolvent :
      (new_id : String) (salt : Bytes) (db db' : Db)
      → IsSolvent db
      → lifespan services new_id salt (some db) ≡ some db'
      → IsSolvent db'
  unfolding lifespan create_schema seed_default_agent
  lifespan-IsSolvent new_id salt db db' v h = elim (Bool-cases services.auto_create_schema) [
    | inl creates ↦
        seed_found-IsSolvent services.hashlib services.methods services.seed_settings funded new_id
          salt _ db db' v (rw creates at h)
    | inr leaves ↦
        seed_found-IsSolvent services.hashlib services.methods services.seed_settings funded new_id
          salt _ db db' v (rw leaves at h)
  ]

  Step-IsSolvent :
      {s t : App R Q}
      → Step services s t
      → IsStanding IsPricedOffer s
      → IsSolvent s.world.db
      → IsSolvent t.world.db
  unfolding run
  Step-IsSolvent (Step.launched new_id salt db fresh h) u v =
      lifespan-IsSolvent new_id salt _ db v h
  Step-IsSolvent (Step.signed_in credentials now agent h) u v = v
  Step-IsSolvent {s} (Step.search_started n agent_id at payload cached redis h) u v =
      IsSolvent-tables s.world.db _
        (start_found-tables services.search_cache services.broker services.search_settings
          services.request_hash at agent_id payload cached (record s.world { redis = redis }))
        v
  Step-IsSolvent {s} (Step.search_begun search_id) u v =
      with_search-IsSolvent search_id (begin_search search_id s.world.db) s
        (IsSolvent-tables s.world.db _ (begin_search-tables search_id s.world.db) v)
  Step-IsSolvent {s} (Step.search_ended n r at new_id outcome h e) u v =
      IsSolvent-tables s.world.db _
        (finish_search-tables services.integrity_text at new_id (services.provider at.now).name
          r.search_id r.request s.world.db outcome)
        v
  Step-IsSolvent (Step.booking_begun n agent_id at payload key offer h read) u v = v
  Step-IsSolvent {s} (Step.booking_ended n b at payload_hash outcome h) u v =
      let (is_agent, is_offer, priced) =
        Each-get (IsBookable IsPricedOffer s.world.db) s.bookings n b h u.bookings in
      finish_booking-IsSolvent at b.agent_id b.payload b.key payload_hash b.offer outcome s.world.db
        priced v
  Step-IsSolvent {s} (Step.issue_begun n agent_id order_id key h) u v =
      run-IsSolvent (request agent_id order_id key ∷ [])
        (record { db = s.world.db; flights = s.flights }) tt v
  Step-IsSolvent {s} (Step.issue_ended n d outcome) u v =
      run-IsSolvent (answer n d outcome ∷ []) (record { db = s.world.db; flights = s.flights }) tt v

  -- If the provider never asks a negative price and the default agent's balance is not negative,
  -- then the application, which starts without requests on a database in which no balance, no price
  -- of an offer or an order and no amount of a balance transaction is negative, reaches no state in
  -- which a balance, the price of an order or the amount of a balance transaction is negative.
  pub Reach-IsSolvent :
      (w : World R Q) {t : App R Q}
      → Reach services (idle w) t
      → Each IsPricedOffer w.db.offers
      → IsSolvent w.db
      → IsSolvent t.world.db
  Reach-IsSolvent w r priced v =
      solvent r (idle-IsStanding services IsPricedOffer offers w priced) v
    where
      solvent :
          {s t : App R Q}
          → Reach services s t
          → IsStanding IsPricedOffer s
          → IsSolvent s.world.db
          → IsSolvent t.world.db
      solvent Reach.here u v = v
      solvent (Reach.next q st) u v =
          Step-IsSolvent st (Reach-IsStanding services IsPricedOffer offers q u) (solvent q u v)
