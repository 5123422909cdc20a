-- ===== src/Pipeline.antt =====
-- apps/gateway/src/routes/openai_compat.rs: the clamp of a request's answer, the tokens and the costs
-- of what was served, and its usage event. The floating-point fields of an outcome, its explanation
-- and the JSON of the techniques are left out; the prices do not change while a request is served,
-- and the latency in milliseconds is an argument.
pub mod Charges
pub mod Chat
pub mod Inputs
mod Tests
use Prim.Native.Nat.{◌/◌}
use aegis_ai_gateway.Prelude.{
  ℕ, ◌+◌, ◌-◌, ◌^◌, ◌%◌, min, max, Bool, true, false, not, ◌&&◌, ◌||◌, Option, none, some, ltb, leb,
  length, if◌then◌else◌,
}
use aegis_ai_gateway.Auth.{AuthContext}
use aegis_ai_gateway.Budget.Headroom.{projected_token_counts}
use aegis_ai_gateway.Failover.{Served}
use aegis_ai_gateway.Int.{pos}
use aegis_ai_gateway.Money.{MicroCents, cost_for_tokens}
use aegis_ai_gateway.Panic.{Run, returns, ◌>>=◌}
use aegis_ai_gateway.Pricing.{
  ModelPricing, input_cost_of, output_cost_of, cache_discount_of, rates_for,
}
use aegis_ai_gateway.Pricing.Names.{PricingTable, get, table_cost, table_cost_of, baseline_of}
use aegis_ai_gateway.Savings.{
  SavingsBreakdown, SavingsComponents, compute, components, cache_hit, cache_hit_components,
}
use aegis_ai_gateway.Text.{Text, codes}
use aegis_ai_gateway.Types.{
  TokenUsage, total, total_input, CacheOutcome, miss, RoutingReason, by_fallback, by_cache,
}
use aegis_ai_gateway.Types.Request.{NormalizedRequest, estimated_input_tokens}
use aegis_ai_gateway.Types.Response.{NormalizedResponse}
use aegis_ai_gateway.Usage.{UsageEvent, Uuid, Month}
use aegis_ai_gateway.Usage.Event.{new_event}

pub record PipelineOutcome : Type 0 where
  pub request_id : Uuid
  pub response : NormalizedResponse
  pub served_model : Text
  pub requested_model : Text
  pub provider : Text
  pub savings : SavingsBreakdown
  pub savings_components : SavingsComponents
  pub input_cost_mc : MicroCents
  pub output_cost_mc : MicroCents
  pub cache : CacheOutcome
  pub routing_reason : RoutingReason
  pub tokens : TokenUsage
  pub total_latency_ms : ℕ
  pub tokens_saved_by_compression : ℕ
  pub cache_bust_hits : ℕ

unfoldable pub within_ceiling : Option ℕ → ℕ → Bool
within_ceiling none ceiling = false
within_ceiling (some requested) ceiling = leb requested ceiling

-- The clamped request, and whether it was changed.
unfoldable pub clamp_max_tokens : NormalizedRequest → (ceiling : ℕ) → NormalizedRequest × Bool
unfolding within_ceiling
clamp_max_tokens r ceiling =
    if within_ceiling r.max_tokens ceiling
    then (r, false)
    else (record r { max_tokens = some ceiling }, true)

unfoldable pub resolve_usage : NormalizedResponse → NormalizedRequest → TokenUsage
resolve_usage response request =
    if not response.usage.estimated && ltb 0 (total response.usage)
    then response.usage
    else record {
      input_tokens = estimated_input_tokens request;
      output_tokens = max (length response.content / 4) 1;
      cached_input_tokens = 0;
      cache_write_tokens = 0;
      estimated = true;
    }

unfoldable pub hit_outcome :
    (request_id : Uuid) (requested_model : Text)
    → NormalizedResponse
    → (served_model : Text) → (savings_share_bp : ℕ) → CacheOutcome
    → (latency_ms : ℕ) → (baseline : MicroCents) → PipelineOutcome
hit_outcome request_id requested_model response served_model savings_share_bp outcome latency_ms
      baseline =
    let savings = cache_hit baseline savings_share_bp in
    record {
      request_id = request_id;
      response = response;
      served_model = served_model;
      requested_model = requested_model;
      provider = codes "cache";
      savings = savings;
      savings_components = cache_hit_components savings.gross_savings;
      input_cost_mc = pos 0;
      output_cost_mc = pos 0;
      cache = outcome;
      routing_reason = by_cache;
      tokens = response.usage;
      total_latency_ms = latency_ms;
      tokens_saved_by_compression = 0;
      cache_bust_hits = 0;
    }

unfoldable pub cache_hit_outcome :
    PricingTable
    → (request_id : Uuid) → (requested_model : Text) → NormalizedResponse
    → (served_model : Text) → (savings_share_bp : ℕ) → CacheOutcome
    → (latency_ms : ℕ) → Run PipelineOutcome
unfolding hit_outcome
cache_hit_outcome pricing request_id requested_model response served_model savings_share_bp outcome
      latency_ms =
    baseline_of pricing requested_model response.usage (pos 0) >>= λ baseline. returns (
      hit_outcome request_id requested_model response served_model savings_share_bp outcome
        latency_ms baseline)

-- `unwrap_or`
unfoldable pub amount_or : MicroCents → Option MicroCents → MicroCents
amount_or fallback none = fallback
amount_or fallback (some amount) = amount

-- What a cost of the served model is, or zero where it has no price.
unfoldable pub priced : (ModelPricing → MicroCents) → Option ModelPricing → MicroCents
priced cost none = pos 0
priced cost (some m) = cost m

-- The tokens that the request would have had without compression; the sum saturates at 2^64 - 1.
unfoldable pub uncompressed : TokenUsage → (tokens_saved : ℕ) → TokenUsage
uncompressed tokens tokens_saved =
    if ltb 0 tokens_saved
    then record tokens { input_tokens = min (tokens.input_tokens + tokens_saved) (2 ^ 64 - 1) }
    else tokens

-- The price of the tokens that compression saved.
unfoldable pub compression_savings : TokenUsage → (tokens_saved : ℕ) → ModelPricing → MicroCents
compression_savings tokens tokens_saved m =
    cost_for_tokens (rates_for m (total_input tokens)).0 tokens_saved

module _ (savings_share_bp : ℕ) (request_id : Uuid) (requested_model : Text)
    (tokens_saved cache_bust_hits : ℕ) (reason : RoutingReason) (served : Served)
    (latency_ms : ℕ) where
  -- The outcome by what the table says of the two models.
  unfoldable pub outcome_of :
      TokenUsage
      → (served_cost requested_cost : Option MicroCents) → Option ModelPricing
      → PipelineOutcome
  unfolding amount_or priced compression_savings
  outcome_of tokens served_cost requested_cost served_pricing =
      let actual_cost = amount_or (pos 0) served_cost in
      let savings = compute (amount_or actual_cost requested_cost) actual_cost savings_share_bp in
      record {
        request_id = request_id;
        response = served.response;
        served_model = served.model_id;
        requested_model = requested_model;
        provider = served.provider_id;
        savings = savings;
        savings_components =
            components savings.gross_savings
              (priced (compression_savings tokens tokens_saved) served_pricing)
              (priced (λ m. cache_discount_of m tokens) served_pricing);
        input_cost_mc = priced (λ m. input_cost_of m tokens) served_pricing;
        output_cost_mc = priced (λ m. output_cost_of m tokens) served_pricing;
        cache = miss;
        routing_reason = if served.used_fallback then by_fallback else reason;
        tokens = tokens;
        total_latency_ms = latency_ms;
        tokens_saved_by_compression = tokens_saved;
        cache_bust_hits = cache_bust_hits;
      }

  -- The tokens, the costs and the outcome; `request` is the one that was sent. What the pipeline
  -- writes to the caches and tells the bandit in between does not change them.
  unfoldable pub settle : PricingTable → (request : NormalizedRequest) → Run PipelineOutcome
  unfolding outcome_of uncompressed
  settle pricing request =
      let tokens = resolve_usage served.response request in
      table_cost_of pricing served.model_id tokens >>= λ served_cost.
      table_cost_of pricing requested_model (uncompressed tokens tokens_saved) >>= λ requested_cost.
      get pricing served.model_id >>= λ served_pricing.
      returns (outcome_of tokens served_cost requested_cost served_pricing)

-- `now` is when the event is made.
unfoldable pub usage_event :
    PipelineOutcome → AuthContext → (status_code : ℕ) → (region : Text) → (now : Month) → UsageEvent
unfolding new_event
usage_event o auth status_code region now =
    record (new_event o.request_id auth.org_id auth.api_key_id auth.team_id o.requested_model
      o.served_model o.provider o.tokens o.savings o.total_latency_ms o.cache o.routing_reason
      status_code now) {
        input_cost_mc = o.input_cost_mc;
        output_cost_mc = o.output_cost_mc;
        tokens_saved_by_compression = o.tokens_saved_by_compression;
        routing_savings_mc = o.savings_components.routing_savings;
        compression_savings_mc = o.savings_components.compression_savings;
        cache_savings_mc = o.savings_components.cache_savings;
        cache_bust_hits = o.cache_bust_hits % 2 ^ 32;
        region = some region;
        user_id = auth.user_id;
      }

-- `project_cost` of middleware/budget.rs
unfoldable pub project_cost : NormalizedRequest → PricingTable → Run MicroCents
unfolding amount_or
project_cost request pricing =
    let (input_tokens, projected_output) =
      projected_token_counts (estimated_input_tokens request) request.max_tokens in
    table_cost pricing request.model input_tokens projected_output >>= λ found.
    returns (amount_or (pos 0) found)
