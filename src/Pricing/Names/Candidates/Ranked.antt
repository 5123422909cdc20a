-- ===== src/Pricing/Names/Candidates/Ranked.antt =====
-- apps/gateway/src/metering/pricing.rs: the models that `cheaper_alternatives` and
-- `cheapest_at_or_below` return.
use mathlib.Core.List.{Memᴰ}
use aegis_ai_gateway.Prelude.{
  ◌≡◌, ◌↔◌, ◌≤◌, refl, subst, true, none, some, List, filter, filter-mem, mem-filter, All-mem,
  leb→le, le→leb,
}
use aegis_ai_gateway.Panic.{returns}
use aegis_ai_gateway.Pricing.{ModelPricing, Requirements}
use aegis_ai_gateway.Pricing.Names.{PricingTable, get}
use aegis_ai_gateway.Pricing.Names.Candidates.{
  all_active, satisfies, price_le, is_alternative, alternatives_to, cheaper_alternatives,
  cheapest_at_or_below,
}
use aegis_ai_gateway.Pricing.Names.Candidates.Order.{
  price_le-total, price_le_trans, Serves, satisfies_iff, IsCheaperThan, is_alternative_iff,
}
use aegis_ai_gateway.Sorting.{sort_by}
use aegis_ai_gateway.Sorting.Ascending.{
  IsAscending, sort_by-IsAscending, sort_by-mem, mem-sort_by, min_by-IsLeast, min_by-none,
}
use aegis_ai_gateway.Text.{Text}
use aegis_ai_gateway.Types.{ModelTier, tier_le, rank}

-- For a requested model that the table knows, `cheaper_alternatives` returns a list: exactly the
-- active models with another id that are strictly cheaper and can do what the request needs, in
-- the order of their price and then of their ids.
pub cheaper_alternatives-IsAscending :
    (t : PricingTable) (requested : Text) (r : Requirements) (target : ModelPricing)
    → get t requested ≡ returns (some target)
    → (l : List ModelPricing) × (cheaper_alternatives t requested r ≡ returns l)
      × IsAscending price_le l
      × ((m : ModelPricing) → Memᴰ m l ↔ (Memᴰ m (all_active t) × IsCheaperThan target r m))
unfolding cheaper_alternatives alternatives_to
cheaper_alternatives-IsAscending t requested r target e =
    let kept = filter (is_alternative target r) (all_active t) in
    (
      sort_by price_le kept,
      rw (cheaper_alternatives, e) refl,
      sort_by-IsAscending price_le price_le-total price_le_trans kept,
      λ m. (
        λ k.
            let f =
              mem-filter (is_alternative target r) m (all_active t)
                (mem-sort_by price_le m kept k) in
            (f.0, (is_alternative_iff target r m).0 f.1),
        λ k. sort_by-mem price_le m kept (
            filter-mem (is_alternative target r) m (all_active t) k.0
              ((is_alternative_iff target r m).1 k.1)),
      ),
    )

-- An active model that may serve at a tier.
abbrev pub Fits : PricingTable → ModelTier → Requirements → ModelPricing → Type 0
Fits t tier r m = Memᴰ m (all_active t) × (rank m.tier ≤ rank tier) × Serves m r

abbrev fitting : PricingTable → ModelTier → Requirements → List ModelPricing
fitting t tier r = filter (λ m. satisfies m r) (filter (λ m. tier_le m.tier tier) (all_active t))

pub tier_le_iff : (a b : ModelTier) → (tier_le a b ≡ true) ↔ (rank a ≤ rank b)
unfolding tier_le
tier_le_iff a b = (leb→le (rank a) (rank b), le→leb (rank a) (rank b))

fitting_iff :
    (t : PricingTable) (tier : ModelTier) (r : Requirements) (m : ModelPricing)
    → Memᴰ m (fitting t tier r) ↔ Fits t tier r m
fitting_iff t tier r m =
    let low = λ (n : ModelPricing). tier_le n.tier tier in
    let able = λ (n : ModelPricing). satisfies n r in
    (
      λ k.
          let a = mem-filter able m (filter low (all_active t)) k in
          let b = mem-filter low m (all_active t) a.0 in
          (b.0, (tier_le_iff m.tier tier).0 b.1, (satisfies_iff m r).0 a.1),
      λ k.
          filter-mem able m (filter low (all_active t))
            (filter-mem low m (all_active t) k.0 ((tier_le_iff m.tier tier).1 k.1))
            ((satisfies_iff m r).1 k.2),
    )

-- `cheapest_at_or_below` returns an active model that can do what the request needs, at or below
-- the tier, and none such goes before it in the order of price and id; it returns nothing only if
-- there is no such model.
pub cheapest_at_or_below-IsLeast :
    (t : PricingTable) (tier : ModelTier) (r : Requirements)
    → ((m : ModelPricing)
        → cheapest_at_or_below t tier r ≡ some m
        → Fits t tier r m × ((n : ModelPricing) → Fits t tier r n → price_le m n ≡ true))
      × (cheapest_at_or_below t tier r ≡ none → (n : ModelPricing) → ¬ Fits t tier r n)
unfolding cheapest_at_or_below
cheapest_at_or_below-IsLeast t tier r = (
  λ m e.
      let least = min_by-IsLeast price_le price_le-total price_le_trans (fitting t tier r) m e in
      (
        (fitting_iff t tier r m).0 least.0,
        λ n h.
            All-mem (λ y. price_le m y ≡ true) n (fitting t tier r) least.1
              ((fitting_iff t tier r n).1 h),
      ),
  λ e n h.
      elim (subst (λ l. Memᴰ n l) (min_by-none price_le (fitting t tier r) e)
        ((fitting_iff t tier r n).1 h)) [ ],
)
