-- ===== src/Application/Tests.antt =====
-- The theorems on the application at a run of it, and at the first start on an empty database.
use ioka.Prelude.{◌≡◌, refl, List, arith}
use mathlib.Core.Path.{subst}
use ioka.Prelude.Each.{Each}
use ioka.Domain.Provider.{ProviderOffer, Outcome, returned}
use ioka.MockProvider.{variant_offer, mock_offers}
use ioka.Booking.Concurrent.Solvent.{IsSolvent}
use ioka.Booking.Concurrent.Safety.{IsSound}
use ioka.Booking.Ledger.{IsLedger-empty, funds}
use ioka.Application.Steps.{idle}
use ioka.Application.History.{Keeps}
use ioka.Application.ForeignKeys.{HasForeignKeys}
use ioka.Application.Uniqueness.{IsUnique}
use ioka.Application.Reachable.{Reach-HasForeignKeys, Reach-IsUnique, Reach-Keeps}
use ioka.Application.Money.Solvent.{HasPrices, IsPricedItem, Reach-IsSolvent}
use ioka.Application.Money.Sound.{system, Reach-IsSound}
use ioka.Application.Money.Funds.{Reach-funds}
use ioka.Fixture.{fresh_db}
use ioka.Application.ExampleRun.{services, world, final, reached, digest}

fresh_db-HasForeignKeys : HasForeignKeys fresh_db
fresh_db-HasForeignKeys = record {
  search_agents = (refl, tt);
  offer_searches = (refl, tt);
  order_agents = tt;
  order_offers = tt;
  payment_agents = tt;
  payment_orders = tt;
  record_agents = tt;
}

Reach-HasForeignKeys_example : HasForeignKeys final.world.db
Reach-HasForeignKeys_example = Reach-HasForeignKeys services world reached fresh_db-HasForeignKeys

fresh_db-IsUnique : IsUnique fresh_db
fresh_db-IsUnique = record {
  agent_ids = (tt, tt);
  emails = (tt, tt);
  search_ids = (tt, tt);
  offer_ids = (tt, tt);
  provider_offers = (tt, tt);
  order_ids = tt;
  references = tt;
  issue_keys = tt;
  tickets = tt;
  payment_keys = tt;
  scope_keys = tt;
}

Reach-IsUnique_example : IsUnique final.world.db
Reach-IsUnique_example = Reach-IsUnique services world reached fresh_db-IsUnique

Reach-Keeps_example : Keeps fresh_db final.world.db
Reach-Keeps_example = Reach-Keeps services world reached

mock_provider-HasPrices : HasPrices services.provider
unfolding mock_offers variant_offer
mock_provider-HasPrices now asked state items e =
    subst (Each IsPricedItem) (offered (mock_offers digest now asked) items e)
      (omega arith, (omega arith, (omega arith, tt)))
  where
    offered :
        (xs ys : List ProviderOffer)
        → ◌≡◌ {A = Outcome (List ProviderOffer)} (returned xs) (returned ys)
        → xs ≡ ys
    offered xs ys same = cc

fresh_db-IsSolvent : IsSolvent fresh_db
fresh_db-IsSolvent = record { balances = (omega arith, tt); prices = tt; payments = tt }

Reach-IsSolvent_example : IsSolvent final.world.db
Reach-IsSolvent_example =
    Reach-IsSolvent services mock_provider-HasPrices (omega arith) world reached (omega arith, tt)
      fresh_db-IsSolvent

idle-IsSound : IsSound (system (idle world))
idle-IsSound = record { ledger = IsLedger-empty fresh_db refl refl; owned = tt }

Reach-IsSound_example : IsSound (system final)
Reach-IsSound_example = Reach-IsSound services reached idle-IsSound

Reach-funds_example : funds "agent-1" final.world.db ≡ funds "agent-1" fresh_db
unfolding reached
Reach-funds_example =
    Reach-funds services world reached ((((((((tt, tt), tt), tt), refl), tt), tt), tt), tt)
      idle-IsSound "agent-1" refl
