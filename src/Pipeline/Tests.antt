-- ===== src/Pipeline/Tests.antt =====
-- Requests of an organisation without limits and of one with a hard limit: an answer of ten tokens,
-- and an answer from the cache.
use aegis_ai_gateway.Prelude.{◌^◌, ◌≤◌, ◌≡◌, refl, arith, true, false, [], ◌∷◌, none, some}
use aegis_ai_gateway.Auth.{AuthContext}
use aegis_ai_gateway.Budget.{
  BudgetDecision, Reservation, allowed, denied, check_and_reserve, scopes,
}
use aegis_ai_gateway.Error.{Result, ok, err, internal}
use aegis_ai_gateway.Failover.{Served}
use aegis_ai_gateway.Int.{pos, pos_part, neg_part, ◌+ℤ◌, ◌-ℤ◌, max_ℤ, int_laws}
use aegis_ai_gateway.Int.I64.{saturating_add, saturate, wrapping_sub, wrap}
use aegis_ai_gateway.Limits.{BudgetLimits, default_limits, hard_limit_of}
use aegis_ai_gateway.Panic.{returns}
use aegis_ai_gateway.Pricing.{ModelPricing, anthropic, bare_name, cost_of, rates_for}
use aegis_ai_gateway.Pricing.Costs.{HasRates}
use aegis_ai_gateway.Pricing.Names.{
  PricingTable, from_models, resolve, get, find_canonical, resolve_normalized,
  register_default_aliases, add_aliases, add_alias, insert_models, insert_model,
}
use aegis_ai_gateway.Savings.{compute}
use aegis_ai_gateway.Store.Memory.{MemoryStore, memory_store, incr_by, number_of}
use aegis_ai_gateway.Store.Memory.Counter.{memory_counters, counter}
use aegis_ai_gateway.Table.{lookup, insert}
use aegis_ai_gateway.Text.{Text, codes, text_eq, split_once, to_ascii_lowercase, trim}
use aegis_ai_gateway.Types.{cheap, premium, ModelTier, by_complexity, exact}
use aegis_ai_gateway.Types.Request.{NormalizedRequest}
use aegis_ai_gateway.Usage.{Month, UsageEvent, org_spend_key, key_spend_key, org_region_spend_key}
use aegis_ai_gateway.Usage.Event.{rejected_event}
use aegis_ai_gateway.Pipeline.{
  PipelineOutcome, outcome_of, settle, cache_hit_outcome, usage_event, resolve_usage,
}
use aegis_ai_gateway.Pipeline.Charges.{AddsUp, settle-AddsUp, cache_hit_outcome-AddsUp}
use aegis_ai_gateway.Pipeline.Chat.{settled_event, finish_chat, after_check}
use aegis_ai_gateway.Pipeline.Chat.Spend.{finish_chat_settles, after_check_refused}

abbrev model_of : Text → ModelTier → ModelPricing
model_of id tier = record {
  model_id = id;
  provider = codes "a";
  display_name = [];
  tier = tier;
  input_per_mtok = pos 100;
  output_per_mtok = pos 100;
  context_window = 1_000;
  supports_tools = true;
  supports_vision = true;
  supports_chat = true;
  is_active = true;
  source = [];
  cache = anthropic;
  long_context = none;
}

abbrev two_models : PricingTable
two_models = from_models (model_of (codes "a/s") cheap ∷ model_of (codes "a/b") premium ∷ [])

abbrev request : NormalizedRequest
request = record {
  model = codes "a/b";
  messages = [];
  max_tokens = some 20;
  stream = false;
  tools = [];
  temperature = none;
  top_p = none;
  stop = none;
  response_format = none;
  extra = [];
}

abbrev served : Served
served = record {
  response = record {
    id = codes "r";
    model = codes "s";
    content = codes "hello";
    finish_reason = none;
    usage = record {
      input_tokens = 30;
      output_tokens = 10;
      cached_input_tokens = 0;
      cache_write_tokens = 0;
      estimated = false;
    };
  };
  model_id = codes "a/s";
  provider_id = codes "a";
  used_fallback = false;
}

abbrev auth : AuthContext
auth = record {
  org_id = codes "o";
  api_key_id = some (codes "k");
  team_id = none;
  user_id = none;
  plan = "pro";
  savings_share_bp = 2000;
  zero_retention = false;
  rate_limit_per_minute = 60;
  monthly_budget_mc = none;
  allowed_models = none;
  region = codes "eu";
  role = none;
  is_admin = false;
  team_name = none;
  user_email = none;
  default_routing_mode = none;
}

abbrev january : Month
january = record { year = 7; month = 1 }

get_served : get two_models (codes "a/s") ≡ returns (some (model_of (codes "a/s") cheap))
unfolding get find_canonical resolve from_models resolve_normalized lookup register_default_aliases
    add_aliases add_alias insert_models insert_model insert text_eq bare_name split_once
    to_ascii_lowercase trim
get_served = refl

get_requested : get two_models (codes "a/b") ≡ returns (some (model_of (codes "a/b") premium))
unfolding get find_canonical resolve from_models resolve_normalized lookup register_default_aliases
    add_aliases add_alias insert_models insert_model insert text_eq bare_name split_once
    to_ascii_lowercase trim
get_requested = refl

served-HasRates : HasRates (model_of (codes "a/s") cheap)
unfolding rates_for
served-HasRates n = (refl, refl)

settle-AddsUp_example :
    (o : PipelineOutcome) × (settle 2000
        (codes "r")
        (codes "a/b")
        5
        0
        by_complexity
        served
        12
        two_models
        request
      ≡ returns o)
    × (o.tokens ≡ resolve_usage served.response request)
    × ((usage_event o auth 200 (codes "eu") january).actual_cost_mc
        ≡ cost_of (model_of (codes "a/s") cheap) o.tokens)
    × AddsUp (usage_event o auth 200 (codes "eu") january)
settle-AddsUp_example =
    settle-AddsUp 2000 (codes "r") (codes "a/b") 5 0 by_complexity served 12 two_models request
      (model_of (codes "a/s") cheap) (some (model_of (codes "a/b") premium)) auth 200 (codes "eu")
      january get_served get_requested served-HasRates (omega arith)

cache_hit_outcome-AddsUp_example :
    (o : PipelineOutcome) × (cache_hit_outcome two_models
        (codes "r")
        (codes "a/b")
        served.response
        (codes "a/s")
        2000
        exact
        1
      ≡ returns o)
    × (let e = usage_event o auth 200 (codes "eu") january in
        (e.actual_cost_mc ≡ pos 0)
        × (e.org_id ≡ auth.org_id)
        × (e.cache_savings_mc ≡ e.gross_savings_mc)
        × AddsUp e)
cache_hit_outcome-AddsUp_example =
    cache_hit_outcome-AddsUp two_models (codes "r") (codes "a/b") (codes "a/s") served.response 2000
      exact 1 (some (model_of (codes "a/b") premium)) auth 200 (codes "eu") january get_requested
      (omega arith)

abbrev empty : MemoryStore
empty = record {
  poisoned = false;
  values = [];
  windows = [];
  streams = [];
  stream_seq = 0;
  now = 1000;
}

empty-IsUp : memory_counters.IsUp empty
empty-IsUp = record { usable = refl; clock_fits = omega arith }

empty_counters : (j : Text) → pos_part (counter j empty) ≤ 2 ^ 62
unfolding counter lookup number_of
empty_counters j = omega arith

-- serde_json, as far as it matters here.
abbrev to_json : UsageEvent → Result Text
to_json e = ok e.request_id

abbrev held : Reservation
held = record {
  keys =
      key_spend_key (codes "k") january
      ∷ org_region_spend_key (codes "o") (codes "eu") january
      ∷ org_spend_key (codes "o") january
      ∷ [];
  amount_mc = pos 50;
  token_keys = [];
  reserved_tokens = pos 0;
  resolved = false;
}

held_for_fifty :
    (check_and_reserve auth default_limits (some (codes "eu")) (pos 50) (pos 9) january empty).0
    ≡ allowed held
unfolding check_and_reserve scopes incr_by saturating_add saturate ◌+ℤ◌ lookup insert text_eq
    key_spend_key org_spend_key org_region_spend_key max_ℤ wrapping_sub wrap ◌-ℤ◌
held_for_fifty = refl

abbrev outcome : PipelineOutcome
outcome =
    outcome_of 2000 (codes "r") (codes "a/b") 0 0 by_complexity served 12 served.response.usage
      (some (pos 30)) (some (pos 90)) none

nothing_counted :
    (pos_part (counter (org_spend_key (codes "o") january) empty) ≡ 0)
    × (neg_part (counter (org_spend_key (codes "o") january) empty) ≡ 0)
unfolding counter lookup number_of
nothing_counted = (refl, refl)

finish_chat_settles_example :
    (counter
        (org_spend_key (codes "o") january)
        (check_and_reserve auth default_limits (some (codes "eu")) (pos 50) (pos 9) january empty).1
      ≡ counter (org_spend_key (codes "o") january) empty +ℤ pos 50)
    × (counter
          (org_spend_key (codes "o") january)
          (finish_chat to_json auth (codes "eu") january held (ok outcome, empty)).1
        ≡ counter (org_spend_key (codes "o") january) empty
          +ℤ (outcome.savings.actual_cost -ℤ pos 50))
    × (counter
          (org_spend_key (codes "o") january)
          (finish_chat to_json auth (codes "eu") january held (err (internal "down"), empty)).1
        ≡ counter (org_spend_key (codes "o") january) empty -ℤ pos 50)
unfolding outcome_of compute settled_event
finish_chat_settles_example =
    finish_chat_settles memory_counters to_json auth default_limits (codes "eu") january (pos 50)
      (pos 9) empty empty-IsUp (omega arith) (omega arith) empty_counters held held_for_fifty
      outcome (codes "r") (internal "down") empty empty-IsUp refl (omega int_laws)
      (omega (int_laws, nothing_counted)) (omega (int_laws, nothing_counted))

abbrev limited : BudgetLimits
limited = record default_limits { org = some (hard_limit_of (pos 100)) }

abbrev breach : BudgetDecision
breach = record { allowed = false; spend = pos 0; limit = some (pos 100); scope = "organization" }

over_limit :
    (check_and_reserve auth limited (some (codes "eu")) (pos 120) (pos 9) january empty).0
    ≡ denied (breach ∷ [])
unfolding check_and_reserve scopes incr_by saturating_add saturate ◌+ℤ◌ lookup insert text_eq
    key_spend_key org_spend_key org_region_spend_key max_ℤ wrapping_sub wrap ◌-ℤ◌
over_limit = refl

after_check_refused_example :
    counter
      (org_spend_key (codes "o") january)
      (after_check to_json
        (codes "r")
        auth
        limited
        (codes "eu")
        (codes "a/b")
        january
        (check_and_reserve auth limited (some (codes "eu")) (pos 120) (pos 9) january empty)).1
    ≡ counter (org_spend_key (codes "o") january) empty
unfolding rejected_event
after_check_refused_example =
    after_check_refused memory_counters to_json auth limited (codes "eu") (codes "a/b") january
      (pos 120) (pos 9) empty (codes "r") (breach ∷ []) (codes "r") empty-IsUp (omega arith)
      (omega arith) empty_counters over_limit refl
