-- ===== src/Failover/Alternates.antt =====
-- apps/gateway/src/routes/openai_compat.rs: the models of other providers that stand by for the
-- selected one.
pub mod Standby
use aegis_ai_gateway.Prelude.{
  ℕ, Bool, true, not, ◌&&◌, ◌||◌, Option, none, some, List, [], ◌∷◌, map, filter, take, min,
}
use aegis_ai_gateway.Panic.{Run, returns, ◌>>=◌}
use aegis_ai_gateway.Pricing.{ModelPricing, Requirements}
use aegis_ai_gateway.Pricing.Names.{PricingTable, get}
use aegis_ai_gateway.Pricing.Names.Candidates.{all_active, satisfies, price_le}
use aegis_ai_gateway.Routing.{RoutingDecision, has_text, u32_max}
use aegis_ai_gateway.Sorting.{sort_by}
use aegis_ai_gateway.Text.{Text, codes, text_eq, starts_with}
use aegis_ai_gateway.Types.{tier_le}
use aegis_ai_gateway.Types.Request.{
  NormalizedRequest, estimated_input_tokens, requires_tools, requires_vision,
}

-- What the request needs; unlike the router's, without the tokens of the answer.
unfoldable pub input_requirements : NormalizedRequest → Requirements
input_requirements r = record {
  tools = requires_tools r;
  vision = requires_vision r;
  min_context = min (estimated_input_tokens r) u32_max;
  chat = true;
}

unfoldable pub is_reachable : Option (List Text) → ModelPricing → Bool
is_reachable none m = true
is_reachable (some configured) m =
    has_text m.provider configured
    || (has_text (codes "openrouter") configured
        && (text_eq m.provider (codes "openrouter")
            || starts_with (codes "openrouter/") m.model_id))

unfoldable pub stands_by :
    Option (List Text) → Requirements → (selected : ModelPricing) → ModelPricing → Bool
stands_by configured r selected m =
    not (text_eq m.provider selected.provider)
    && tier_le selected.tier m.tier
    && is_reachable configured m
    && satisfies m r

unfoldable pub standbys :
    PricingTable → Option (List Text) → Requirements → Option ModelPricing → List ModelPricing
unfolding stands_by
standbys pricing configured r none = []
standbys pricing configured r (some selected) =
    take 2 (sort_by price_le (filter (stands_by configured r selected) (all_active pricing)))

abbrev pub named : ModelPricing → Text × Text
named m = (m.model_id, m.provider)

unfoldable pub alternates_for :
    PricingTable
    → NormalizedRequest
    → RoutingDecision
    → Option (List Text)
    → Run (List (Text × Text))
unfolding standbys
alternates_for pricing request decision configured =
    get pricing decision.served_model >>= λ selected.
    returns (map named (standbys pricing configured (input_requirements request) selected))
