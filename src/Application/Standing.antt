-- ===== src/Application/Standing.antt =====
-- What a waiting request has read stays in the database, so each step of the application writes as
-- Application/Writes says. `P` is what is known of every offer that the provider makes.
pub mod Kept
use ioka.Prelude.{◌≡◌, refl, ap, ◌∙◌, String, true, Option, none, some, List}
use ioka.Prelude.Lists.{any}
use ioka.Prelude.Rows.{scalar}
use ioka.Prelude.Each.{Each, Each-append}
use ioka.Prelude.Keys.{Each-weaken}
use ioka.Domain.Provider.{
  AirlineProvider, ProviderSearchRequest, ProviderOffer, Outcome, returned, raised, timed_out,
}
use ioka.Exceptions.{ok, error, not_found, conflict, or_raise-ok, raise_if-ok, ok-injective}
use ioka.Domain.Calendar.{Datetime, has_passed}
use ioka.Models.{Db, Offer, Moment, agent_by_id}
use ioka.Booking.Create.{offered_to, bookable_offer}
use ioka.Application.Steps.{App, Booking, with_search, Answers}
use ioka.Application.Writes.{Write, Writes}
use ioka.Application.Writes.Search.{Allows, Allowed}
use ioka.Application.History.{Keeps, offer_with_id}

abbrev pub IsAgent : Db → String → Type 0
IsAgent db k = any (agent_by_id k) db.agents ≡ true

abbrev pub IsBookable : (Offer → Type 0) → Db → Booking → Type 0
IsBookable P db b =
    IsAgent db b.agent_id × (any (offer_with_id b.offer.id) db.offers ≡ true) × P b.offer

-- The agents of the requests, and the offers that they book, are stored.
pub record IsStanding {R Q : Type 0} (P : Offer → Type 0) (s : App R Q) : Type 0 where
  pub offers : Each P s.world.db.offers
  pub agent_ids : Each (IsAgent s.world.db) s.agent_ids
  pub bookings : Each (IsBookable P s.world.db) s.bookings

module _ {R Q : Type 0} (P : Offer → Type 0) where
  pub with_search-Writes :
      (search_id : String) (r : Option ProviderSearchRequest × Db) (s : App R Q)
      → Writes P s.world.db r.1
      → Writes P s.world.db (with_search search_id r s).world.db
  with_search-Writes search_id (none, db) s ws = ws
  with_search-Writes search_id (some request, db) s ws = ws

module _ {R Q : Type 0} where
  pub with_search-lists :
      (search_id : String) (r : Option ProviderSearchRequest × Db) (s : App R Q)
      → ((with_search search_id r s).agent_ids ≡ s.agent_ids)
        × ((with_search search_id r s).bookings ≡ s.bookings)
  with_search-lists search_id (none, db) s = (refl, refl)
  with_search-lists search_id (some request, db) s = (refl, refl)

module _ (db db' : Db) (kept : Keeps db db') where
  pub agents_stand : (ks : List String) → Each (IsAgent db) ks → Each (IsAgent db') ks
  agents_stand ks h = Each-weaken (IsAgent db) (IsAgent db') ks (λ k. kept.agents k) h

  pub bookings_stand :
      (P : Offer → Type 0) (bs : List Booking)
      → Each (IsBookable P db) bs
      → Each (IsBookable P db') bs
  bookings_stand P bs h =
      Each-weaken (IsBookable P db) (IsBookable P db') bs
        (λ b k. (kept.agents b.agent_id k.0, kept.offers b.offer.id k.1, k.2)) h

-- The row that `bookable_offer` returns.
pub bookable_offer-found :
    (at : Moment) (agent_id offer_id : String) (db : Db) (offer : Offer)
    → bookable_offer at agent_id offer_id db ≡ ok offer
    → scalar (offered_to agent_id offer_id db) db.offers ≡ some offer
unfolding bookable_offer
bookable_offer-found at agent_id offer_id db offer h =
    let (read, is_offer, h1) =
      or_raise-ok (scalar (offered_to agent_id offer_id db) db.offers)
        (error not_found "Offer not found") _ h in
    let (open_offer, h2) =
      raise_if-ok (has_passed read.expires_at at.now) (error conflict "Offer has expired") (ok read)
        h1 in
    is_offer ∙ ap some (ok-injective read offer h2)

pub offers_kept :
    (P : Offer → Type 0) (db db' : Db) → Write P db db' → Each P db.offers → Each P db'.offers
offers_kept P db db' (Write.add_offer offer allowed stored free) h =
    Each-append P db.offers offer h allowed
offers_kept P db db' other h = h

-- Every offer of the provider is as `P` says.
abbrev pub Offers : {S : Type 0} → (Offer → Type 0) → (Datetime → AirlineProvider S) → Type 0
Offers {S} P provider =
    (now : Datetime) (asked : ProviderSearchRequest) (state : S) (items : List ProviderOffer)
    → ((provider now).search asked state).0 ≡ returned items
    → (name search_id : String) → Each (Allows P name search_id) items

pub Answers-Allowed :
    {S : Type 0} (P : Offer → Type 0) (provider : Datetime → AirlineProvider S)
    (asked : ProviderSearchRequest) (name search_id : String)
    (outcome : Outcome (List ProviderOffer))
    → Offers P provider
    → Answers provider asked outcome
    → Allowed P name search_id outcome
Answers-Allowed P provider asked name search_id (returned items) offers (now, state, e) =
    offers now asked state items e name search_id
Answers-Allowed P provider asked name search_id (raised message class) offers e = tt
Answers-Allowed P provider asked name search_id (timed_out message) offers e = tt
