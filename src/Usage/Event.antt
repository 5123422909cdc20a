-- ===== src/Usage/Event.antt =====
-- apps/gateway/src/metering/usage.rs: the events of served and of refused requests. `Utc::now()` and
-- the latency in whole milliseconds are arguments.
use aegis_ai_gateway.Prelude.{ℕ, false, Option, none, some, if◌then◌else◌}
use aegis_ai_gateway.Int.{pos}
use aegis_ai_gateway.Savings.{SavingsBreakdown}
use aegis_ai_gateway.Text.{Text, codes}
use aegis_ai_gateway.Types.{
  TokenUsage, CacheOutcome, is_hit, outcome_as_str, RoutingReason, reason_as_str, passed_through,
}
use aegis_ai_gateway.Usage.{UsageEvent, Uuid, Month}

-- `UsageEvent::new`
unfoldable pub new_event :
    (request_id org_id : Uuid) (api_key_id team_id : Option Uuid)
    (requested_model served_model provider : Text) (tokens : TokenUsage)
    (savings : SavingsBreakdown) (latency_ms : ℕ) (cache : CacheOutcome) (reason : RoutingReason)
    (status_code : ℕ) (now : Month)
    → UsageEvent
new_event request_id org_id api_key_id team_id requested_model served_model provider tokens savings
      latency_ms cache reason status_code now =
    record {
      request_id = request_id;
      org_id = org_id;
      api_key_id = api_key_id;
      team_id = team_id;
      user_id = none;
      requested_model = requested_model;
      served_model = served_model;
      provider = provider;
      input_tokens = tokens.input_tokens;
      output_tokens = tokens.output_tokens;
      cached_input_tokens = tokens.cached_input_tokens;
      cache_write_tokens = tokens.cache_write_tokens;
      tokens_estimated = tokens.estimated;
      baseline_cost_mc = savings.baseline_cost;
      actual_cost_mc = savings.actual_cost;
      input_cost_mc = pos 0;
      output_cost_mc = pos 0;
      gross_savings_mc = savings.gross_savings;
      aegis_fee_mc = savings.aegis_fee;
      routing_savings_mc = pos 0;
      compression_savings_mc = pos 0;
      cache_savings_mc = pos 0;
      latency_ms = latency_ms;
      cache_hit = is_hit cache;
      cache_type = if is_hit cache then some (outcome_as_str cache) else none;
      routing_reason = reason_as_str reason;
      status_code = status_code;
      error_type = none;
      tokens_saved_by_compression = 0;
      cache_bust_hits = 0;
      region = none;
      reserved_mc = pos 0;
      reserved_tokens = pos 0;
      created_at = now;
    }

-- `UsageEvent::rejected`
unfoldable pub rejected_event :
    (request_id org_id : Uuid) (api_key_id : Option Uuid) (requested_model : Text) (status_code : ℕ)
    (error_type : Text) (latency_ms : ℕ) (now : Month)
    → UsageEvent
rejected_event request_id org_id api_key_id requested_model status_code error_type latency_ms now =
    record {
      request_id = request_id;
      org_id = org_id;
      api_key_id = api_key_id;
      team_id = none;
      user_id = none;
      requested_model = requested_model;
      served_model = requested_model;
      provider = codes "none";
      input_tokens = 0;
      output_tokens = 0;
      cached_input_tokens = 0;
      cache_write_tokens = 0;
      tokens_estimated = false;
      baseline_cost_mc = pos 0;
      actual_cost_mc = pos 0;
      input_cost_mc = pos 0;
      output_cost_mc = pos 0;
      gross_savings_mc = pos 0;
      aegis_fee_mc = pos 0;
      routing_savings_mc = pos 0;
      compression_savings_mc = pos 0;
      cache_savings_mc = pos 0;
      latency_ms = latency_ms;
      cache_hit = false;
      cache_type = none;
      routing_reason = reason_as_str passed_through;
      status_code = status_code;
      error_type = some error_type;
      tokens_saved_by_compression = 0;
      cache_bust_hits = 0;
      region = none;
      reserved_mc = pos 0;
      reserved_tokens = pos 0;
      created_at = now;
    }
