-- ===== src/Routing/Select.antt =====
-- apps/gateway/src/engine/router.rs: the models that may stand in for the requested one, and which
-- of them is taken: `select_at_tier` and `passthrough_capped`.
use aegis_ai_gateway.Prelude.{
  ℕ, Bool, true, ◌&&◌, ◌||◌, Option, none, some, List, [], ◌∷◌, map, filter, find?, ltb, length,
  if◌then◌else◌,
}
use aegis_ai_gateway.Int.{ltb_ℤ, eqb_ℤ}
use aegis_ai_gateway.Fallback.{ProviderHealth, is_available}
use aegis_ai_gateway.Panic.{Run, returns, ◌>>=◌}
use aegis_ai_gateway.Pricing.{ModelPricing, blended_per_mtok}
use aegis_ai_gateway.Pricing.Names.{PricingTable}
use aegis_ai_gateway.Pricing.Names.Candidates.{all_active, satisfies, cheaper_alternatives}
use aegis_ai_gateway.Routing.{
  RoutingDecision, RoutingInputs, Judgement, BudgetPressure, comfortable, tight, critical,
  requirements_of, combine_ceilings, is_provider_configured, is_allowed, budget_pressure,
  substitution_reason,
}
use aegis_ai_gateway.Sorting.{sort_by, max_by}
use aegis_ai_gateway.Text.{text_eq}
use aegis_ai_gateway.Text.Order.{text_le}
use aegis_ai_gateway.Types.{
  ModelTier, cheap, mid, rank, tier_le, tier_min, RoutingReason, passed_through,
}
use aegis_ai_gateway.Types.Request.{NormalizedRequest}

-- A decision for a model of the table.
abbrev pub serve : ModelPricing → RoutingReason → ℕ → RoutingDecision
serve m reason considered = record {
  served_model = m.model_id;
  provider = m.provider;
  reason = reason;
  candidates_considered = considered;
}

unfoldable pub passthrough : (requested : ModelPricing) → RoutingReason → RoutingDecision
passthrough requested reason = serve requested reason 0

unfoldable pub or_else {ℓ} : {A : Type ℓ} → Option A → Option A → Option A
or_else none b = b
or_else (some a) b = some a

-- The tier that budget pressure leaves.
unfoldable pub pressed : BudgetPressure → ModelTier → ModelTier
pressed critical tier = cheap
pressed tight tier = tier_min tier mid
pressed comfortable tier = tier

-- `combine_ceilings(Some(tier), ceiling).unwrap_or(tier)`
unfoldable pub under_ceiling : Option ModelTier → ModelTier → ModelTier
under_ceiling ceiling tier = elim (combine_ceilings (some tier) ceiling) [
  | none ↦ tier
  | some c ↦ c
]

-- The best model that may be used, or the requested one after all.
unfoldable pub capped_choice :
    (requested : ModelPricing) (provider_up : Bool) → Option ModelPricing → RoutingDecision
capped_choice requested provider_up (some m) = serve m (substitution_reason provider_up) 1
capped_choice requested provider_up none = serve requested passed_through 0

module _ (j : Judgement) (pricing : PricingTable) (health : ProviderHealth) (now : ℕ)
    (inputs : RoutingInputs) (request : NormalizedRequest) where
  -- The model is on the list, its provider has credentials, and its circuit is closed.
  unfoldable pub is_usable : ModelPricing → Bool
  is_usable m =
      is_allowed m.model_id inputs
      && is_provider_configured m.provider m.model_id inputs
      && is_available health now m.provider

  unfoldable pub within_plan : ModelPricing → Bool
  within_plan m = elim inputs.plan_tier_ceiling [
    | none ↦ true
    | some ceiling ↦ tier_le m.tier ceiling
  ]

  -- The order of `max_by`: tier, then price, then the ids backwards.
  unfoldable pub better : ModelPricing → ModelPricing → Bool
  better a b =
      ltb (rank a.tier) (rank b.tier)
      || (tier_le a.tier b.tier
          && tier_le b.tier a.tier
          && (ltb_ℤ (blended_per_mtok a) (blended_per_mtok b)
              || (eqb_ℤ (blended_per_mtok a) (blended_per_mtok b)
                  && text_le b.model_id a.model_id)))

  unfoldable pub capped_candidates : List ModelPricing
  unfolding within_plan is_usable
  capped_candidates =
      filter (λ m. within_plan m && satisfies m (requirements_of request) && is_usable m)
        (all_active pricing)

  unfoldable pub passthrough_capped : (requested : ModelPricing) → RoutingDecision
  unfolding within_plan is_usable better capped_candidates capped_choice
  passthrough_capped requested =
      if within_plan requested && is_usable requested
      then serve requested passed_through 0
      else capped_choice requested (is_available health now requested.provider)
          (max_by better capped_candidates)

  -- The candidates in the order in which they are preferred.
  unfoldable pub in_order : List ModelPricing → List ModelPricing
  in_order candidates =
      let priced = sort_by (j.by_price candidates) candidates in
      elim (j.by_domain request candidates) [
        | none ↦ priced
        | some order ↦ if ltb 1 (length candidates) then sort_by order priced else priced
      ]

  -- The bandit's selection, or the first.
  unfoldable pub chosen : ModelPricing → List ModelPricing → ModelPricing
  chosen first rest = elim j.select [
    | none ↦ first
    | some select ↦ elim (select (j.complexity request) (map (λ m. m.model_id) (first ∷ rest))) [
      | none ↦ first
      | some id ↦ elim (find? (λ m. text_eq m.model_id id) (first ∷ rest)) [
        | none ↦ first
        | some m ↦ m
      ]
    ]
  ]

  unfoldable pub pick : RoutingReason → List ModelPricing → Option RoutingDecision
  unfolding in_order chosen
  pick reason candidates = elim (in_order candidates) [
    | [] ↦ none
    | first ∷ rest ↦ some (serve (chosen first rest) reason (length candidates))
  ]

  unfoldable pub select_at_tier :
      (requested : ModelPricing) → ModelTier → RoutingReason → Run (Option RoutingDecision)
  unfolding is_usable pick
  select_at_tier requested tier reason =
      cheaper_alternatives pricing requested.model_id (requirements_of request) >>= λ found.
      returns (pick reason (filter (λ m. tier_le m.tier tier && is_usable m) found))

  unfoldable pub effective_tier : (requested : ModelPricing) → ModelTier → ModelTier
  unfolding pressed under_ceiling
  effective_tier requested target =
      let after = pressed (budget_pressure inputs requested request) target in
      tier_min (under_ceiling inputs.plan_tier_ceiling after) requested.tier
