-- ===== src/Routing/Pressure.antt =====
-- apps/gateway/src/engine/router.rs: budget pressure and the tier that it leaves.
use aegis_ai_gateway.Prelude.{
  ℕ, ◌+◌, ◌*◌, ◌/◌, ◌≡◌, ◌≤◌, ◌<◌, ◌↔◌, refl, sym, arith, true, Option, none, some, leb, min,
}
use aegis_ai_gateway.Int.{ℤ, pos, negsuc, ◌≤ℤ◌, ◌<ℤ◌}
use aegis_ai_gateway.Fallback.{ProviderHealth}
use aegis_ai_gateway.Pricing.{ModelPricing}
use aegis_ai_gateway.Pricing.Names.{PricingTable}
use aegis_ai_gateway.Routing.{
  RoutingInputs, Judgement, BudgetPressure, comfortable, tight, critical, pressure_of,
  budget_pressure, combine_ceilings,
}
use aegis_ai_gateway.Routing.Select.{pressed, under_ceiling, effective_tier}
use aegis_ai_gateway.Types.{ModelTier, cheap, mid, premium, frontier, rank, tier_le, tier_min}
use aegis_ai_gateway.Types.Request.{NormalizedRequest}

div_below : (h p k : ℕ) → 1 ≤ p → (leb (h / p) k ≡ true) ↔ (h < (k + 1) * p)
div_below h p k one = grind arith

-- Pressure counts how many more requests like this one fit: for a projection above zero it is
-- critical below three of them and comfortable from ten on.
pub pressure_of_iff :
    (headroom : ℤ) (projected : ℕ)
    → 1 ≤ projected
    → ((pressure_of headroom (pos projected) ≡ critical) ↔ (headroom <ℤ pos (3 * projected)))
      × ((pressure_of headroom (pos projected) ≡ comfortable) ↔ (pos (10 * projected) ≤ℤ headroom))
unfolding pressure_of
pressure_of_iff (negsuc n) projected one = ground arith
pressure_of_iff (pos n) projected one =
    let two = div_below n projected 2 one in let nine = div_below n projected 9 one in ground arith

tier_min_lem : (a b : ModelTier) → rank (tier_min a b) ≡ min (rank a) (rank b)
unfolding tier_min tier_le
tier_min_lem a b = ground arith

under_ceiling_lem :
    (ceiling : Option ModelTier) (t : ModelTier)
    → (rank (under_ceiling ceiling t) ≤ rank t)
      × ((c : ModelTier) → ceiling ≡ some c → rank (under_ceiling ceiling t) ≤ rank c)
unfolding under_ceiling combine_ceilings
under_ceiling_lem none t = (omega arith, λ c e. cc)
under_ceiling_lem (some d) t = (
  omega (arith, tier_min_lem t d),
  λ c e. let q : d ≡ c = cc in rw (sym q) (omega (arith, tier_min_lem t d)),
)

pressed_lem : (p : BudgetPressure) (t : ModelTier) → rank (pressed p t) ≤ rank t
unfolding pressed
pressed_lem comfortable t = omega arith
pressed_lem tight t = omega (arith, tier_min_lem t mid)
pressed_lem critical t = omega arith

rank_zero : (t : ModelTier) → rank t ≤ 0 → t ≡ cheap
rank_zero cheap h = refl
rank_zero mid h = absurd (omega arith)
rank_zero premium h = absurd (omega arith)
rank_zero frontier h = absurd (omega arith)

module _ (j : Judgement) (pricing : PricingTable) (health : ProviderHealth) (now : ℕ)
    (inputs : RoutingInputs) (request : NormalizedRequest) where
  -- Budget pressure and ceilings only lower a tier: what is left is at most the tier that the mode
  -- targets, the tier of the requested model and every ceiling of the plan, and under critical
  -- pressure it is the cheap one.
  pub effective_tier-bounds :
      (requested : ModelPricing) (target : ModelTier)
      → (rank (effective_tier j pricing health now inputs request requested target) ≤ rank target)
        × (rank (effective_tier j pricing health now inputs request requested target)
            ≤ rank requested.tier)
        × ((c : ModelTier)
            → inputs.plan_tier_ceiling ≡ some c
            → rank (effective_tier j pricing health now inputs request requested target) ≤ rank c)
        × (budget_pressure inputs requested request ≡ critical
            → effective_tier j pricing health now inputs request requested target ≡ cheap)
  unfolding effective_tier
  effective_tier-bounds requested target =
      let after = pressed (budget_pressure inputs requested request) target in
      let a = pressed_lem (budget_pressure inputs requested request) target in
      let b = under_ceiling_lem inputs.plan_tier_ceiling after in
      let m = tier_min_lem (under_ceiling inputs.plan_tier_ceiling after) requested.tier in
      (
        omega arith,
        omega arith,
        λ c e. let below = b.1 c e in omega arith,
        λ e.
            let none_left : rank after ≤ 0 = rw (e, pressed) (omega arith) in
            rank_zero _ (omega arith),
      )
