-- ===== src/Application/Reachable.antt =====
-- What holds of the database in every state that the application reaches, whatever requests, tasks,
-- messages and starts of other processes interleave, and whatever the provider answers.
use ioka.Prelude.Keys.{Each-of_all}
use ioka.Models.{Offer}
use ioka.Search.Start.{World}
use ioka.Application.{Services}
use ioka.Application.Steps.{App, idle, Reach}
use ioka.Application.Standing.{IsStanding, Offers}
use ioka.Application.Standing.Kept.{Step-Writes, idle-IsStanding, Reach-IsStanding, Reach-keep}
use ioka.Application.History.{Keeps, Keeps-refl, Keeps-trans, Writes-Keeps}
use ioka.Application.ForeignKeys.{HasForeignKeys, write-HasForeignKeys}
use ioka.Application.Uniqueness.{IsUnique, write-IsUnique}

-- nothing in particular
abbrev AnyOffer : Offer → Type 0
AnyOffer o = Unit {0}

module _ {R Q S : Type 0} (services : Services R Q S) where
  no_demand : Offers AnyOffer services.provider
  no_demand now asked state items e name search_id = Each-of_all _ items (λ item id. tt)

  standing : (w : World R Q) → IsStanding AnyOffer (idle w)
  standing w =
      idle-IsStanding services AnyOffer no_demand w (Each-of_all AnyOffer w.db.offers (λ o. tt))

  -- In every state that the application reaches from one without requests, every foreign key of the
  -- database is the key of a stored row, if that was so at first: of a search its agent, of an offer
  -- its search, of an order its agent and its offer, of a balance transaction its agent and its
  -- order, of an idempotency record its agent.
  pub Reach-HasForeignKeys :
      (w : World R Q) {t : App R Q}
      → Reach services (idle w) t
      → HasForeignKeys w.db
      → HasForeignKeys t.world.db
  Reach-HasForeignKeys w r =
      Reach-keep services AnyOffer no_demand HasForeignKeys (write-HasForeignKeys AnyOffer) r
        (standing w)

  -- In every state that the application reaches from one without requests, no two rows of a table
  -- share a key or the values of a unique constraint, if none did at first and a process that starts
  -- draws the id of no agent: of agents the id and the email, of searches the id, of offers the id
  -- and the provider with its identifier, of orders the id, the booking reference, the issue key and
  -- the ticket number, of balance transactions the idempotency key, of idempotency records the agent
  -- with scope and key.
  pub Reach-IsUnique :
      (w : World R Q) {t : App R Q}
      → Reach services (idle w) t
      → IsUnique w.db
      → IsUnique t.world.db
  Reach-IsUnique w r =
      Reach-keep services AnyOffer no_demand IsUnique (write-IsUnique AnyOffer) r (standing w)

  -- Nothing that is stored is deleted: in every state that the application reaches from one without
  -- requests, a row of an agent, a search, an offer or an order is found again under its id, of a
  -- balance transaction under its idempotency key, of an idempotency record under agent, scope and
  -- key, and the audit rows are those of before with others after them.
  pub Reach-Keeps :
      (w : World R Q) {t : App R Q} → Reach services (idle w) t → Keeps w.db t.world.db
  Reach-Keeps w r = kept r (standing w)
    where
      kept :
          {s t : App R Q} → Reach services s t → IsStanding AnyOffer s → Keeps s.world.db t.world.db
      kept Reach.here v = Keeps-refl _
      kept (Reach.next q st) v = Keeps-trans _ _ _ (kept q v) (
          Writes-Keeps (
            Step-Writes services AnyOffer no_demand st
              (Reach-IsStanding services AnyOffer no_demand q v)))
