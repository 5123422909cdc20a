-- ===== src/Pipeline/Charges.antt =====
-- apps/gateway/src/routes/openai_compat.rs: the figures of a usage event fit together.
use aegis_ai_gateway.Prelude.{ℕ, ◌≤◌, ◌≡◌, refl, arith, Option, none, some}
use aegis_ai_gateway.Auth.{AuthContext}
use aegis_ai_gateway.Failover.{Served}
use aegis_ai_gateway.Int.{pos, ◌≤ℤ◌}
use aegis_ai_gateway.Int.I64.{InI64}
use aegis_ai_gateway.Money.{MicroCents, add, sub, floor_at_zero}
use aegis_ai_gateway.Money.Amounts.{money_laws, sub_parts, floor_at_zero_parts}
use aegis_ai_gateway.Panic.{returns}
use aegis_ai_gateway.Pricing.{ModelPricing, cost_of, cache_discount_of}
use aegis_ai_gateway.Pricing.Costs.{IsAmount, HasRates, cost_of-IsAmount}
use aegis_ai_gateway.Pricing.Names.{PricingTable, get, table_cost_of, baseline_of}
use aegis_ai_gateway.Savings.{components_sum, compute, cache_hit, cache_hit_components}
use aegis_ai_gateway.Savings.Breakdown.{compute_conserves}
use aegis_ai_gateway.Savings.Components.{components_sum_exact}
use aegis_ai_gateway.Text.{Text}
use aegis_ai_gateway.Types.{TokenUsage, CacheOutcome, RoutingReason}
use aegis_ai_gateway.Types.Request.{NormalizedRequest}
use aegis_ai_gateway.Types.Response.{NormalizedResponse}
use aegis_ai_gateway.Usage.{UsageEvent, Uuid, Month}
use aegis_ai_gateway.Pipeline.{
  PipelineOutcome, outcome_of, settle, hit_outcome, cache_hit_outcome, usage_event, resolve_usage,
  uncompressed, amount_or, priced, compression_savings,
}

-- The costs of the two directions make the cost, the saving is what the baseline exceeds it by, the
-- fee is a part of the saving, and the three levers explain the saving exactly.
pub record AddsUp (e : UsageEvent) : Type 0 where
  pub costs : add e.input_cost_mc e.output_cost_mc ≡ e.actual_cost_mc
  pub is_amount : IsAmount e.actual_cost_mc
  pub saving : e.gross_savings_mc ≡ floor_at_zero (sub e.baseline_cost_mc e.actual_cost_mc)
  pub fee : (pos 0 ≤ℤ e.aegis_fee_mc) × (e.aegis_fee_mc ≤ℤ e.gross_savings_mc)
  pub levers :
      (pos 0 ≤ℤ e.routing_savings_mc)
      × (pos 0 ≤ℤ e.compression_savings_mc)
      × (pos 0 ≤ℤ e.cache_savings_mc)
      × (add (add e.routing_savings_mc e.compression_savings_mc) e.cache_savings_mc
          ≡ e.gross_savings_mc)

saving-InI64 :
    (baseline actual : MicroCents)
    → InI64 (floor_at_zero (sub baseline actual)) × (pos 0 ≤ℤ floor_at_zero (sub baseline actual))
saving-InI64 baseline actual =
    omega (money_laws, sub_parts baseline actual, floor_at_zero_parts (sub baseline actual))

module _ (bp : ℕ) (request_id : Uuid) (requested_model : Text) (tokens_saved hits : ℕ)
    (reason : RoutingReason) (served : Served) (latency : ℕ) where
  outcome-AddsUp :
      (auth : AuthContext) (status : ℕ) (region : Text) (now : Month) (tokens : TokenUsage)
      (m : ModelPricing) (requested_cost : Option MicroCents)
      → HasRates m
      → bp ≤ 10_000
      → AddsUp (
          usage_event
            (outcome_of bp request_id requested_model tokens_saved hits reason served latency tokens
              (some (cost_of m tokens))
              requested_cost
              (some m))
            auth
            status
            region
            now)
  unfolding outcome_of usage_event priced amount_or cost_of compute add components_sum
  outcome-AddsUp auth status region now tokens m requested_cost h k =
      let actual = cost_of m tokens in
      let baseline = amount_or actual requested_cost in
      let gross = floor_at_zero (sub baseline actual) in
      let split = compute_conserves baseline actual bp k in
      record {
        costs = refl;
        is_amount = cost_of-IsAmount m tokens h;
        saving = refl;
        fee = (split.0, split.1);
        levers =
            let in_range = saving-InI64 baseline actual in
            components_sum_exact gross (compression_savings tokens tokens_saved m)
              (cache_discount_of m tokens) in_range.0 in_range.1;
      }

  -- When the names of the two models resolve, the served model has a price whose rates are not
  -- negative, and the share is at most 100%, settle comes to an outcome, and the usage event made of
  -- it bills the price of the tokens of the outcome and adds up.
  pub settle-AddsUp :
      (pricing : PricingTable) (request : NormalizedRequest) (m : ModelPricing)
      (requested : Option ModelPricing) (auth : AuthContext) (status : ℕ) (region : Text)
      (now : Month)
      → get pricing served.model_id ≡ returns (some m)
      → get pricing requested_model ≡ returns requested
      → HasRates m
      → bp ≤ 10_000
      → (o : PipelineOutcome) × (settle bp request_id requested_model tokens_saved hits reason
            served latency pricing request
          ≡ returns o)
        × (o.tokens ≡ resolve_usage served.response request)
        × ((usage_event o auth status region now).actual_cost_mc ≡ cost_of m o.tokens)
        × AddsUp (usage_event o auth status region now)
  unfolding settle usage_event table_cost_of
  settle-AddsUp pricing request m requested auth status region now e e' h k =
      let tokens = resolve_usage served.response request in
      let requested_cost : Option MicroCents = elim requested [
        | none ↦ none
        | some n ↦ some (cost_of n (uncompressed tokens tokens_saved))
      ] in
      (
        outcome_of bp request_id requested_model tokens_saved hits reason served latency tokens
            (some (cost_of m tokens)) requested_cost (some m),
        rw (e, e') refl,
        refl,
        (unfold outcome_of amount_or compute in refl),
        outcome-AddsUp auth status region now tokens m requested_cost h k,
      )

-- When the requested name resolves and the share is at most 100%, an answer from the cache comes to
-- an outcome whose usage event bills nothing, is an event of the organisation, explains the whole
-- saving by the cache, and adds up.
pub cache_hit_outcome-AddsUp :
    (pricing : PricingTable) (request_id : Uuid) (requested_model served_model : Text)
    (response : NormalizedResponse) (bp : ℕ) (hit : CacheOutcome) (latency : ℕ)
    (requested : Option ModelPricing) (auth : AuthContext) (status : ℕ) (region : Text)
    (now : Month)
    → get pricing requested_model ≡ returns requested
    → bp ≤ 10_000
    → (o : PipelineOutcome) × (cache_hit_outcome pricing request_id requested_model response
          served_model bp hit latency
        ≡ returns o)
      × (let e = usage_event o auth status region now in
          (e.actual_cost_mc ≡ pos 0)
          × (e.org_id ≡ auth.org_id)
          × (e.cache_savings_mc ≡ e.gross_savings_mc)
          × AddsUp e)
unfolding cache_hit_outcome hit_outcome amount_or baseline_of table_cost_of usage_event cache_hit
    cache_hit_components compute
cache_hit_outcome-AddsUp pricing request_id requested_model served_model response bp hit latency
      requested auth status region now e k =
    let baseline =
      amount_or (pos 0)
        (elim requested [ none ↦ none | some n ↦ some (cost_of n response.usage) ]) in
    let split = compute_conserves baseline (pos 0) bp k in
    let gross = saving-InI64 baseline (pos 0) in
    (
      hit_outcome request_id requested_model response served_model bp hit latency baseline,
      rw e refl,
      (
        refl,
        refl,
        refl,
        record {
          costs = omega money_laws;
          is_amount = omega arith;
          saving = refl;
          fee = (split.0, split.1);
          levers = (omega arith, omega arith, gross.1, omega (money_laws, gross));
        },
      ),
    )
