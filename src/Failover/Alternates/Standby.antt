-- ===== src/Failover/Alternates/Standby.antt =====
-- apps/gateway/src/routes/openai_compat.rs: which models stand by.
use mathlib.Core.List.{Memᴰ}
use aegis_ai_gateway.Prelude.{
  ℕ, zero, suc, ◌≤◌, ◌≡◌, ◌≢◌, refl, arith, true, some, Option, List, [], ◌∷◌, map, take, length,
  filter, not, All, All-of_mem, mem-filter, and_true,
}
use aegis_ai_gateway.Panic.{returns}
use aegis_ai_gateway.Pricing.{ModelPricing, Requirements}
use aegis_ai_gateway.Pricing.Names.{PricingTable, get}
use aegis_ai_gateway.Pricing.Names.Candidates.{all_active, satisfies, price_le}
use aegis_ai_gateway.Pricing.Names.Candidates.Order.{Serves, satisfies_iff}
use aegis_ai_gateway.Pricing.Names.Candidates.Ranked.{tier_le_iff}
use aegis_ai_gateway.Routing.{RoutingDecision}
use aegis_ai_gateway.Sorting.{sort_by}
use aegis_ai_gateway.Sorting.Ascending.{mem-sort_by}
use aegis_ai_gateway.Text.{Text, text_eq}
use aegis_ai_gateway.Text.Equality.{text_eq_iff}
use aegis_ai_gateway.Types.{rank, tier_le}
use aegis_ai_gateway.Types.Request.{NormalizedRequest}
use aegis_ai_gateway.Failover.Alternates.{
  input_requirements, is_reachable, stands_by, standbys, named, alternates_for,
}

take-All {ℓ κ} : {A : Type ℓ} (P : A → Type κ) (n : ℕ) (xs : List A) → All P xs → All P (take n xs)
take-All P zero xs h = tt
take-All P (suc n) [] h = tt
take-All P (suc n) (x ∷ xs) h = (h.0, take-All P n xs h.1)

take_le {ℓ} : {A : Type ℓ} (n : ℕ) (xs : List A) → length (take n xs) ≤ n
take_le zero xs = omega arith
take_le (suc n) [] = omega arith
take_le (suc n) (x ∷ xs) = omega (arith, take_le n xs)

-- An active model of another provider, in no lower tier, that the organisation can reach and that
-- can do what the request needs.
abbrev pub StandsBy :
    PricingTable → Option (List Text) → Requirements → ModelPricing → ModelPricing → Type 0
StandsBy pricing configured r selected m =
    Memᴰ m (all_active pricing)
    × (m.provider ≢ selected.provider)
    × (rank selected.tier ≤ rank m.tier)
    × (is_reachable configured m ≡ true)
    × Serves m r

not_equal : (a b : Text) → not (text_eq a b) ≡ true → a ≢ b
not_equal a b h e = ground (arith, text_eq_iff a b)

stands_by-StandsBy :
    (pricing : PricingTable) (configured : Option (List Text)) (r : Requirements)
    (selected m : ModelPricing)
    → Memᴰ m (sort_by price_le (filter (stands_by configured r selected) (all_active pricing)))
    → StandsBy pricing configured r selected m
unfolding stands_by
stands_by-StandsBy pricing configured r selected m k =
    let test = stands_by configured r selected in
    let f =
      mem-filter test m (all_active pricing)
        (mem-sort_by price_le m (filter test (all_active pricing)) k) in
    let (rest, able) = and_true _ (satisfies m r) f.1 in
    let (rest', near) = and_true _ (is_reachable configured m) rest in
    let (other, high) =
      and_true (not (text_eq m.provider selected.provider)) (tier_le selected.tier m.tier) rest' in
    (
      f.0,
      not_equal m.provider selected.provider other,
      (tier_le_iff selected.tier m.tier).0 high,
      near,
      (satisfies_iff m r).0 able,
    )

-- When the selected model has a price, alternates_for returns the names of at most two models, each
-- of them active, from another provider, in the tier of the selected model or above it, reachable,
-- and capable of what the request needs.
pub alternates_for-StandsBy :
    (pricing : PricingTable) (request : NormalizedRequest) (decision : RoutingDecision)
    (configured : Option (List Text)) (selected : ModelPricing)
    → get pricing decision.served_model ≡ returns (some selected)
    → (l : List ModelPricing) × (alternates_for pricing request decision configured
        ≡ returns (map named l))
      × (length l ≤ 2)
      × All (StandsBy pricing configured (input_requirements request) selected) l
unfolding alternates_for standbys
alternates_for-StandsBy pricing request decision configured selected e =
    let r = input_requirements request in
    let eligible =
      sort_by price_le (filter (stands_by configured r selected) (all_active pricing)) in
    (
      take 2 eligible,
      rw (alternates_for, e) refl,
      take_le 2 eligible,
      take-All (StandsBy pricing configured r selected) 2 eligible (
          All-of_mem (StandsBy pricing configured r selected) eligible
            (stands_by-StandsBy pricing configured r selected)),
    )
