-- ===== src/Routing/Decide.antt =====
-- apps/gateway/src/engine/router.rs: `Router::route`, step by step. Each step is a function, and
-- the early returns of the source are the steps that do not call the next one.
use aegis_ai_gateway.Prelude.{ℕ, Bool, not, ◌&&◌, ◌||◌, Option, none, some, leb, if◌then◌else◌}
use aegis_ai_gateway.Error.{Result, ok, err, model_not_allowed}
use aegis_ai_gateway.Fallback.{ProviderHealth, is_available}
use aegis_ai_gateway.Panic.{Run, returns, ◌>>=◌}
use aegis_ai_gateway.Policy.{
  Action, PolicyContext, evaluate, is_deny, is_passthrough, action_target_tier, tier_ceiling,
  routing_mode_hint,
}
use aegis_ai_gateway.Pricing.{ModelPricing}
use aegis_ai_gateway.Pricing.Names.{PricingTable, get}
use aegis_ai_gateway.Routing.{
  RoutingDecision, RoutingInputs, Judgement, requirements_of, combine_ceilings,
  is_provider_configured, is_allowed, infer_provider,
}
use aegis_ai_gateway.Text.{Text}
use aegis_ai_gateway.Types.{
  ModelTier, RoutingHint, is_passthrough_mode, hint_as_str, target_tier, by_policy, by_complexity,
  passed_through, user_override,
}
use aegis_ai_gateway.Types.Request.{NormalizedRequest, estimated_input_tokens, requires_tools}
use aegis_ai_gateway.Routing.Select.{
  serve, passthrough, or_else, passthrough_capped, select_at_tier, effective_tier,
}

unfoldable pub or_serve :
    (fallback : RoutingDecision) → Option RoutingDecision → Result RoutingDecision
or_serve fallback none = ok fallback
or_serve fallback (some d) = ok d

-- A policy that pins a model without a price passes the request through.
unfoldable pub pinned_or : (requested : ModelPricing) → Option ModelPricing → Result RoutingDecision
pinned_or requested none = ok (passthrough requested by_policy)
pinned_or requested (some m) = ok (serve m by_policy 0)

module _ (j : Judgement) (pricing : PricingTable) (health : ProviderHealth) (now : ℕ)
    (inputs : RoutingInputs) (request : NormalizedRequest) where
  unfoldable pub route_by_complexity :
      (requested : ModelPricing) → RoutingHint → Run (Result RoutingDecision)
  unfolding or_serve
  route_by_complexity requested hint =
      let otherwise = passthrough_capped j pricing health now inputs request requested in
      elim (target_tier hint (j.complexity request)) [
        | none ↦ returns (ok otherwise)
        | some target ↦
            select_at_tier j pricing health now inputs request requested
              (effective_tier j pricing health now inputs request requested target) by_complexity
            >>= λ selected. returns (or_serve otherwise selected)
      ]

  -- A pinned model of the conversation that can serve this turn.
  unfoldable pub can_serve_pinned : ModelPricing → Bool
  can_serve_pinned m =
      is_available health now m.provider
      && is_allowed m.model_id inputs
      && is_provider_configured m.provider m.model_id inputs
      && (not (requires_tools request) || m.supports_tools)
      && (not (requirements_of request).vision || m.supports_vision)
      && leb (requirements_of request).min_context m.context_window

  unfoldable pub serve_pinned :
      (requested : ModelPricing) → RoutingHint → Option ModelPricing → Run (Result RoutingDecision)
  unfolding can_serve_pinned route_by_complexity
  serve_pinned requested hint none = route_by_complexity requested hint
  serve_pinned requested hint (some m) =
      if can_serve_pinned m
      then returns (ok (serve m by_complexity 1))
      else route_by_complexity requested hint

  unfoldable pub route_with_pin :
      (requested : ModelPricing) → RoutingHint → (pin : Option Text) → Run (Result RoutingDecision)
  unfolding serve_pinned
  route_with_pin requested hint none = route_by_complexity requested hint
  route_with_pin requested hint (some id) = get pricing id >>= serve_pinned requested hint

  unfoldable pub route_by_affinity :
      (requested : ModelPricing) → RoutingHint → Run (Result RoutingDecision)
  unfolding route_with_pin
  route_by_affinity requested hint = route_with_pin requested hint inputs.affinity_model

  unfoldable pub policy_context : PolicyContext
  policy_context = record {
    complexity = some (j.complexity request);
    model_requested = request.model;
    team = inputs.team;
    user = inputs.user;
    routing_mode = some (hint_as_str inputs.hint);
    requires_tools = requires_tools request;
    estimated_input_tokens = estimated_input_tokens request;
  }

  unfoldable pub route_to_tier :
      (requested : ModelPricing) → Action → Option ModelTier → Run (Result RoutingDecision)
  unfolding or_serve route_by_affinity
  route_to_tier requested a (some target) =
      select_at_tier j pricing health now inputs request requested target by_policy >>= λ selected.
      returns (or_serve (passthrough requested by_policy) selected)
  route_to_tier requested a none = elim (routing_mode_hint a) [
    | some mode ↦ route_by_affinity requested mode
    | none ↦ returns (ok (passthrough requested by_policy))
  ]

  unfoldable pub route_pinned :
      (requested : ModelPricing) → Action → (pin : Option Text) → Run (Result RoutingDecision)
  unfolding pinned_or route_to_tier
  route_pinned requested a (some pinned) =
      get pricing pinned >>= λ found. returns (pinned_or requested found)
  route_pinned requested a none =
      route_to_tier requested a (
        or_else (action_target_tier a) (combine_ceilings (tier_ceiling a) inputs.plan_tier_ceiling))

  -- The message of the refusal leaves the name of the model out.
  unfoldable pub apply_action : (requested : ModelPricing) → Action → Run (Result RoutingDecision)
  unfolding route_pinned
  apply_action requested a =
      if is_deny a
      then returns (err (model_not_allowed "an organisation policy forbids routing this request"))
      else if is_passthrough a
      then returns (ok (passthrough requested by_policy))
      else route_pinned requested a a.pin_model

  unfoldable pub matched_action : Option Action
  unfolding policy_context
  matched_action = elim inputs.policy [ none ↦ none | some p ↦ evaluate p policy_context ]

  unfoldable pub route_matched :
      (requested : ModelPricing) → Option Action → Run (Result RoutingDecision)
  unfolding apply_action route_by_affinity
  route_matched requested none = route_by_affinity requested inputs.hint
  route_matched requested (some a) = apply_action requested a

  unfoldable pub route_known : (requested : ModelPricing) → Run (Result RoutingDecision)
  unfolding matched_action route_matched
  route_known requested =
      if is_passthrough_mode inputs.hint
      then returns (ok (passthrough requested user_override))
      else route_matched requested matched_action

  unfoldable pub route_found : Option ModelPricing → Run (Result RoutingDecision)
  unfolding route_known
  route_found (some requested) = route_known requested
  route_found none = returns (
      ok record {
        served_model = request.model;
        provider = infer_provider request.model;
        reason = passed_through;
        candidates_considered = 0;
      })

  unfoldable pub route : Run (Result RoutingDecision)
  unfolding route_found
  route = get pricing request.model >>= route_found
