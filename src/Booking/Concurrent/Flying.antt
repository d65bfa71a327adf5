-- ===== src/Booking/Concurrent/Flying.antt =====
-- The flights of a system, each with its money held and an order of its own.
use mathlib.Core.Path.{subst}
use ioka.Prelude.{
  ℕ, zero, suc, String, ◌≡◌, ◌≢◌, refl, ◌∙◌, Bool, false, some, List, [], ◌∷◌, ◌++◌, ◌==◌, arith,
  eq_iff,
}
use ioka.Prelude.Lists.{any, get_elem?, remove_at}
use ioka.Domain.Enums.{held}
use ioka.Models.{Db}
use ioka.Booking.Ledger.{payment_of}
use ioka.Booking.Concurrent.{Flight}

abbrev pub works_on : String → Flight → Bool
works_on j f = f.order_id == j

-- Each flight has its money held, and an order of its own.
abbrev pub Flying : Db → List Flight → Type 0
Flying db [] = Unit {0}
Flying db (f ∷ fs) =
    (payment_of f.order_id db ≡ some held) × (any (works_on f.order_id) fs ≡ false) × Flying db fs

-- `db'` has the payments of `db`, but for one order.
abbrev pub OnlyPays : String → Db → Db → Type 0
OnlyPays j db db' = (k : String) → k ≢ j → payment_of k db' ≡ payment_of k db

pub Flying-change :
    (j : String) (db db' : Db) (fs : List Flight)
    → any (works_on j) fs ≡ false
    → OnlyPays j db db'
    → Flying db fs
    → Flying db' fs
Flying-change j db db' [] free only h = tt
Flying-change j db db' (f ∷ fs) free only h = (
  only f.order_id (λ e. ground (arith, eq_iff f.order_id j)) ∙ h.0,
  h.1,
  Flying-change j db db' fs (ground arith) only h.2,
)

any-add :
    (k : String) (f : Flight) (fs : List Flight)
    → k ≢ f.order_id
    → any (works_on k) fs ≡ false
    → any (works_on k) (fs ++ f ∷ []) ≡ false
any-add k f [] ne h = ground (arith, eq_iff f.order_id k)
any-add k f (g ∷ fs) ne h = ground (arith, any-add k f fs ne)

pub Flying-add :
    (db : Db) (f : Flight) (fs : List Flight)
    → any (works_on f.order_id) fs ≡ false
    → payment_of f.order_id db ≡ some held
    → Flying db fs
    → Flying db (fs ++ f ∷ [])
Flying-add db f [] free pays h = (pays, refl, tt)
Flying-add db f (g ∷ fs) free pays h = (
  h.0,
  any-add g.order_id f fs (λ e. ground (arith, eq_iff g.order_id f.order_id)) h.1,
  Flying-add db f fs (ground arith) pays h.2,
)

any-get :
    (k : String) (fs : List Flight) (n : ℕ) (f : Flight)
    → get_elem? fs n ≡ some f
    → any (works_on k) fs ≡ false
    → k ≢ f.order_id
any-get k [] n f e h = cc
any-get k (g ∷ fs) zero f e h = λ same. ground (arith, eq_iff f.order_id k)
any-get k (g ∷ fs) (suc n) f e h = any-get k fs n f e (ground arith)

any-remove :
    (k : String) (fs : List Flight) (n : ℕ)
    → any (works_on k) fs ≡ false
    → any (works_on k) (remove_at fs n) ≡ false
any-remove k [] n h = refl
any-remove k (g ∷ fs) zero h = ground arith
any-remove k (g ∷ fs) (suc n) h = ground (arith, any-remove k fs n)

pub Flying-get :
    (db : Db) (fs : List Flight) (n : ℕ) (f : Flight)
    → get_elem? fs n ≡ some f
    → Flying db fs
    → payment_of f.order_id db ≡ some held
Flying-get db [] n f e h = cc
Flying-get db (g ∷ fs) zero f e h =
    subst (λ (x : Flight). payment_of x.order_id db ≡ some held) {x = g} {y = f} (cc) h.0
Flying-get db (g ∷ fs) (suc n) f e h = Flying-get db fs n f e h.2

pub Flying-land :
    (db db' : Db) (fs : List Flight) (n : ℕ) (f : Flight)
    → get_elem? fs n ≡ some f
    → OnlyPays f.order_id db db'
    → Flying db fs
    → Flying db' (remove_at fs n)
Flying-land db db' [] n f e only h = tt
Flying-land db db' (g ∷ fs) zero f e only h =
    let same : g ≡ f = cc in
    Flying-change f.order_id db db' fs
      (subst (λ (x : Flight). any (works_on x.order_id) fs ≡ false) same h.1) only h.2
Flying-land db db' (g ∷ fs) (suc n) f e only h = (
  only g.order_id (any-get g.order_id fs n f e h.1) ∙ h.0,
  any-remove g.order_id fs n h.1,
  Flying-land db db' fs n f e only h.2,
)
