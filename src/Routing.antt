-- ===== src/Routing.antt =====
-- apps/gateway/src/engine/router.rs: what a routing decision is made of. The score of the
-- classifier, a float, and the explanation, a text for people, are left out of the decision.
pub mod Select
pub mod Decide
pub mod Selected
pub mod Permitted
pub mod Pressure
pub mod Refusal
pub mod Total
mod Tests
use aegis_ai_gateway.Prelude.{
  ℕ, ◌+◌, ◌/◌, Bool, true, false, not, ◌&&◌, ◌||◌, Option, none, some, List, [], ◌∷◌, any, leb, ltb,
  ◌==◌, min, if◌then◌else◌,
}
use aegis_ai_gateway.Int.{ℤ, pos, leb_ℤ, pos_part}
use aegis_ai_gateway.Pricing.{ModelPricing, Requirements, cost}
use aegis_ai_gateway.Policy.{RoutingPolicy}
use aegis_ai_gateway.Text.{Text, codes, text_eq, split_once, starts_with, to_ascii_lowercase}
use aegis_ai_gateway.Types.{
  ModelTier, tier_min, RoutingHint, RoutingReason, by_policy, provider_unavailable, passed_through,
  user_override, Complexity,
}
use aegis_ai_gateway.Types.Request.{
  NormalizedRequest, estimated_input_tokens, requires_tools, requires_vision,
}

pub record RoutingDecision : Type 0 where
  pub served_model : Text
  pub provider : Text
  pub reason : RoutingReason
  pub candidates_considered : ℕ

unfoldable pub is_passthrough_decision : RoutingDecision → Bool
is_passthrough_decision d = elim d.reason [
  | passed_through ↦ true
  | user_override ↦ true
  | _ ↦ false
]

-- The bandit is part of `Judgement`.
pub record RoutingInputs : Type 0 where
  pub hint : RoutingHint
  pub policy : Option RoutingPolicy
  pub team : Option Text
  pub user : Option Text
  pub allowed_models : Option (List Text)
  pub plan_tier_ceiling : Option ModelTier
  pub budget_headroom_mc : Option ℤ
  pub affinity_model : Option Text
  pub configured_providers : Option (List Text)

-- What rests on floats: the band of a request, the two comparisons that put the candidates in order
-- (by effective price, and by the providers that the domain of the request prefers, if it has any)
-- and the model that the bandit selects from the ids of the candidates, if one is consulted.
pub record Judgement : Type 0 where
  pub complexity : NormalizedRequest → Complexity
  pub by_price : List ModelPricing → ModelPricing → ModelPricing → Bool
  pub by_domain :
      NormalizedRequest → List ModelPricing → Option (ModelPricing → ModelPricing → Bool)
  pub select : Option (Complexity → List Text → Option Text)

abbrev pub u64_max : ℕ
u64_max = 18_446_744_073_709_551_615

abbrev pub u32_max : ℕ
u32_max = 4_294_967_295

unfoldable pub max_tokens_or : ℕ → NormalizedRequest → ℕ
max_tokens_or fallback r = elim r.max_tokens [ none ↦ fallback | some n ↦ n ]

unfoldable pub requirements_of : NormalizedRequest → Requirements
unfolding max_tokens_or
requirements_of r = record {
  tools = requires_tools r;
  vision = requires_vision r;
  min_context = min (min (estimated_input_tokens r + max_tokens_or 0 r) u64_max) u32_max;
  chat = true;
}

unfoldable pub combine_ceilings : (a b : Option ModelTier) → Option ModelTier
combine_ceilings (some a) (some b) = some (tier_min a b)
combine_ceilings (some a) none = some a
combine_ceilings none b = b

abbrev pub has_text : Text → List Text → Bool
has_text x = any λ y. text_eq y x

unfoldable pub is_provider_configured : (provider model_id : Text) → RoutingInputs → Bool
is_provider_configured provider model_id i = elim i.configured_providers [
  | none ↦ true
  | some configured ↦
      has_text provider configured
      || (has_text (codes "openrouter") configured
          && (text_eq provider (codes "openrouter") || starts_with (codes "openrouter/") model_id))
]

unfoldable pub names_model : (model_id allowed : Text) → Bool
names_model model_id a =
    text_eq a model_id
    || (elim (split_once b'/' model_id) [ none ↦ false | some (_, bare) ↦ text_eq bare a ])

unfoldable pub is_allowed : (model_id : Text) → RoutingInputs → Bool
unfolding names_model
is_allowed model_id i = elim i.allowed_models [
  | none ↦ true
  | some allowed ↦ any (names_model model_id) allowed
]

unfoldable pub infer_provider : Text → Text
infer_provider model = elim (split_once b'/' model) [
  | some (provider, _) ↦ provider
  | none ↦
      let lowered = to_ascii_lowercase model in
      if starts_with (codes "gpt") lowered || starts_with (codes "o") lowered
      then codes "openai"
      else if starts_with (codes "claude") lowered
      then codes "anthropic"
      else if starts_with (codes "gemini") lowered
      then codes "google"
      else codes "custom"
]

pub data BudgetPressure : Type 0 where
  comfortable tight critical : BudgetPressure

unfoldable pub pressure_of : (headroom projected : ℤ) → BudgetPressure
pressure_of headroom projected =
    if leb_ℤ headroom (pos 0)
    then critical
    else if leb_ℤ projected (pos 0)
    then comfortable
    else if leb (pos_part headroom / pos_part projected) 2
    then critical
    else if leb (pos_part headroom / pos_part projected) 9
    then tight
    else comfortable

unfoldable pub budget_pressure :
    RoutingInputs → (requested : ModelPricing) → NormalizedRequest → BudgetPressure
unfolding pressure_of max_tokens_or
budget_pressure i requested r = elim i.budget_headroom_mc [
  | none ↦ comfortable
  | some headroom ↦
      pressure_of headroom (cost requested (estimated_input_tokens r) (max_tokens_or 512 r))
]

unfoldable pub substitution_reason : (provider_up : Bool) → RoutingReason
substitution_reason true = by_policy
substitution_reason false = provider_unavailable
