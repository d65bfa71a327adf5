-- ===== src/Search/Process/Catalog.antt =====
-- The offers that the searches have stored, under `uq_provider_offer`.
use mathlib.Core.Path.{subst}
use ioka.Prelude.{
  ℕ, suc, String, ◌≡◌, refl, sym, ◌∙◌, Bool, true, false, not, Option, none, some, List, [], ◌∷◌,
  ◌++◌, ◌==◌, ◌&&◌, inl, inr, arith, Bool-cases, eq_symm,
}
use ioka.Prelude.Lists.{any, any-append}
use ioka.Prelude.Rows.{scalar}
use ioka.Domain.Enums.{is_final}
use ioka.Domain.Provider.{AirlineProvider, ProviderOffer, Outcome, returned, raised, timed_out}
use ioka.Models.{Db, FlightSearch, Offer, Moment, search_by_id}
use ioka.Search.Process.{search_request, offer_row, same_offer, add_offers, commit_failure, process}
use ioka.Search.Process.Ending.{IsEnded, IsAdded, IsMissed, add_offers-rows}
use ioka.Search.Process.Redelivery.{process-IsEnded, process_idle, begin_search-cases}

-- No two rows share an id, or a provider and the provider's id.
abbrev pub is_catalog : List Offer → Bool
is_catalog [] = true
is_catalog (offer ∷ offers) = not (any (same_offer offer) offers) && is_catalog offers

-- A provider's offer with an id that a row has already.
abbrev pub is_repeat : String → List Offer → ProviderOffer → Bool
is_repeat provider rows item =
    any (λ o. o.provider == provider && o.provider_offer_id == item.provider_offer_id) rows

same_offer_sym : (a b : Offer) → same_offer a b ≡ same_offer b a
same_offer_sym a b = rw (
  eq_symm b.id a.id,
  eq_symm b.provider a.provider,
  eq_symm b.provider_offer_id a.provider_offer_id,
)

is_catalog-append :
    (rows : List Offer) (row : Offer)
    → any (same_offer row) rows ≡ false
    → is_catalog rows ≡ true
    → is_catalog (rows ++ row ∷ []) ≡ true
is_catalog-append [] row free h = refl
is_catalog-append (x ∷ rows) row free h = ground (
  arith,
  same_offer_sym x row,
  any-append (same_offer x) rows (row ∷ []),
  is_catalog-append rows row,
)

module _ (new_id : ℕ → String) (provider search_id : String) where
  add_offers-is_catalog :
      (n : ℕ) (items : List ProviderOffer) (rows rows' : List Offer)
      → is_catalog rows ≡ true
      → add_offers new_id provider search_id n items rows ≡ some rows'
      → is_catalog rows' ≡ true
  unfolding add_offers
  add_offers-is_catalog n [] rows rows' h e = subst (λ l. is_catalog l ≡ true) (same e) h
    where
      same : some rows ≡ some rows' → rows ≡ rows'
      same h = cc
  add_offers-is_catalog n (item ∷ items) rows rows' h e =
      let row = offer_row provider search_id (new_id n) item in
      elim (Bool-cases (any (same_offer row) rows)) [
        | inl clash ↦ absurd (nothing (rw clash at e))
        | inr free ↦
            add_offers-is_catalog (suc n) items (rows ++ row ∷ []) rows'
              (is_catalog-append rows row free h) (rw free at e)
      ]
    where
      nothing : none ≡ some rows' → ⊥
      nothing x = cc

  repeat_clash :
      (id : String) (item : ProviderOffer) (rows : List Offer)
      → is_repeat provider rows item ≡ true
      → any (same_offer (offer_row provider search_id id item)) rows ≡ true
  unfolding offer_row
  repeat_clash id item [] h = cc
  repeat_clash id item (x ∷ rows) h = ground (arith, repeat_clash id item rows)

  repeat_more :
      (rows more : List Offer) (items : List ProviderOffer)
      → any (is_repeat provider rows) items ≡ true
      → any (is_repeat provider (rows ++ more)) items ≡ true
  repeat_more rows more [] h = cc
  repeat_more rows more (item ∷ items) h =
      let split =
        any-append (λ o. o.provider == provider && o.provider_offer_id == item.provider_offer_id)
          rows more in
      rw split (ground (arith, repeat_more rows more items))

  -- a repeat stands in the way of the whole commit
  pub add_offers_repeat :
      (n : ℕ) (items : List ProviderOffer) (rows : List Offer)
      → any (is_repeat provider rows) items ≡ true
      → add_offers new_id provider search_id n items rows ≡ none
  unfolding add_offers
  add_offers_repeat n [] rows h = cc
  add_offers_repeat n (item ∷ items) rows h =
      let row = offer_row provider search_id (new_id n) item in
      elim (Bool-cases (any (same_offer row) rows)) [
        | inl clash ↦ rw clash
        | inr free ↦
            let later : any (is_repeat provider rows) items ≡ true =
              ground (arith, repeat_clash (new_id n) item rows) in
            rw (
              free,
              add_offers_repeat (suc n) items (rows ++ row ∷ [])
                  (repeat_more rows (row ∷ []) items later),
            )
      ]

IsEnded-is_catalog :
    (integrity_text : String) (at : Moment) (new_id : ℕ → String) (provider : String)
    (search : FlightSearch) (outcome : Outcome (List ProviderOffer)) (db db' : Db)
    → is_catalog db.offers ≡ true
    → IsEnded integrity_text at new_id provider search outcome db db'
    → is_catalog db'.offers ≡ true
IsEnded-is_catalog integrity_text at new_id provider search (returned items) db db' c h =
    of_added (add_offers new_id provider search.id 0 items db.offers) refl h
  where
    of_added :
        (adds : Option (List Offer))
        → add_offers new_id provider search.id 0 items db.offers ≡ adds
        → IsAdded integrity_text at new_id provider search items adds db db'
        → is_catalog db'.offers ≡ true
    of_added none e h = rw (h.1) c
    of_added (some rows) e h =
        subst (λ l. is_catalog l ≡ true)
          (add_offers-rows new_id provider search.id 0 items db.offers rows e ∙ sym (h.1))
          (add_offers-is_catalog new_id provider search.id 0 items db.offers rows c e)
IsEnded-is_catalog integrity_text at new_id provider search (raised message class) db db' c h =
    rw (h.1) c
IsEnded-is_catalog integrity_text at new_id provider search (timed_out message) db db' c h =
    rw (h.1) c

module _ (integrity_text : String) {S : Type 0} (provider : AirlineProvider S) (at : Moment)
    (new_id : ℕ → String) (search_id : String) (db : Db) (s : S) where
  -- If no two offers share an id, or a provider and the provider's id, none do after `process`,
  -- whatever the provider returns.
  pub process-is_catalog :
      is_catalog db.offers ≡ true
      → is_catalog (process integrity_text provider at new_id search_id db s).0.offers ≡ true
  process-is_catalog c = elim (begin_search-cases search_id db) [
    | inl idle ↦ rw (process_idle integrity_text provider at new_id search_id db s idle) c
    | inr (row, found, open_search) ↦
        IsEnded-is_catalog integrity_text at new_id provider.name row _ db _ c
          (process-IsEnded integrity_text provider at new_id search_id db s row found open_search)
  ]

  -- If the provider returns an offer that an earlier search has brought, a search that is there and
  -- not final is FAILED with `provider_error`, and none of its offers is stored.
  pub process_repeat :
      (search : FlightSearch)
      → scalar (search_by_id search_id) db.searches ≡ some search
      → is_final search.status ≡ false
      → (items : List ProviderOffer) (t : S)
      → provider.search (search_request search) s ≡ (returned items, t)
      → any (is_repeat provider.name db.offers) items ≡ true
      → IsMissed
          (commit_failure integrity_text)
          search
          db
          (process integrity_text provider at new_id search_id db s).0
  process_repeat search found open_search items t answer repeated =
      let ended =
        process-IsEnded integrity_text provider at new_id search_id db s search found open_search in
      let clash = add_offers_repeat new_id provider.name search.id 0 items db.offers repeated in
      subst
        (λ adds.
          IsAdded integrity_text at new_id provider.name search items adds db
            (process integrity_text provider at new_id search_id db s).0)
        clash
        (subst
          (λ (o : Outcome (List ProviderOffer) × S).
            IsEnded integrity_text at new_id provider.name search o.0 db
              (process integrity_text provider at new_id search_id db s).0)
          answer ended)
