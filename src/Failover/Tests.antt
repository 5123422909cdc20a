-- ===== src/Failover/Tests.antt =====
-- A chain of two models: the provider of the first is down, that of the second answers.
use aegis_ai_gateway.Prelude.{
  ℕ, ◌+◌, ◌≡◌, ◌⊎◌, ◌≤◌, map, length, All, refl, arith, true, false, none, some, List, [], ◌∷◌,
}
use aegis_ai_gateway.Error.{AegisError, ok, err, provider}
use aegis_ai_gateway.Text.{Text, codes, text_eq, split_once, starts_with, to_ascii_lowercase, trim}
use aegis_ai_gateway.Table.{lookup, insert}
use aegis_ai_gateway.Types.Request.{NormalizedRequest, contains}
use aegis_ai_gateway.Types.Response.{NormalizedResponse}
use aegis_ai_gateway.Fallback.{
  FallbackAttempt, BreakerEntry, is_available, try_probe, record_success, record_failure,
  is_retryable, retry_delay,
}
use aegis_ai_gateway.KeyPool.{new_credential, Keys, next_credential, shared_keys}
use aegis_ai_gateway.Failover.{
  Upstream, Gateway, World, undecryptable, Served, failed, for_model, resolve_credential,
  call_with_retries, try_attempt, execute_with_fallback, is_reasoning_model, is_bad_request,
}
use aegis_ai_gateway.Failover.Alternates.{input_requirements, named, alternates_for}
use aegis_ai_gateway.Failover.Alternates.Standby.{StandsBy, alternates_for-StandsBy}
use aegis_ai_gateway.Int.{pos}
use aegis_ai_gateway.Panic.{returns}
use aegis_ai_gateway.Pricing.{ModelPricing, anthropic, bare_name}
use aegis_ai_gateway.Pricing.Names.{
  PricingTable, from_models, resolve, get, find_canonical, resolve_normalized,
  register_default_aliases, add_aliases, add_alias, insert_models, insert_model,
}
use aegis_ai_gateway.Routing.{RoutingDecision}
use aegis_ai_gateway.Types.{cheap, passed_through}
use aegis_ai_gateway.Failover.Attempts.{
  ServedFrom, Passed, RefusedBy, execute_with_fallback_serves, execute_with_fallback_fails,
}
use aegis_ai_gateway.Failover.Refused.{IsStatus400}
use aegis_ai_gateway.Failover.Probe.{IsStranded, Skips, missing_credential_strands}
use aegis_ai_gateway.Failover.Retries.{Outcome, one_call, call_with_retries_outcome}

abbrev answer : NormalizedResponse
answer = record {
  id = codes "r";
  model = codes "m";
  content = codes "hello";
  finish_reason = none;
  usage = record {
    input_tokens = 3;
    output_tokens = 2;
    cached_input_tokens = 0;
    cache_write_tokens = 0;
    estimated = false;
  };
}

abbrev down : AegisError
down = provider "a" 500 "down"

-- The outside world is its clock; a call takes seven milliseconds.
abbrev outside : Upstream ℕ
outside = record {
  now = λ t. t;
  sleep = λ ms t. t + ms;
  new_uuid = λ t. (codes "u", t);
  chat = λ adapter request model credential timeout key t.
      (elim (text_eq adapter (codes "b")) [ true ↦ ok answer | false ↦ err down ], t + 7);
  find_default_credential = none;
  decrypt = λ k. undecryptable;
}

abbrev keys : Keys
keys = (codes "a", codes "ka" ∷ []) ∷ (codes "b", codes "kb" ∷ []) ∷ []

abbrev gateway : Gateway
gateway = record {
  adapters =
      record { id = codes "a"; supported_models = [] }
      ∷ record { id = codes "b"; supported_models = [] }
      ∷ [];
  shared_provider_keys = keys;
  provider_timeout = 30_000;
  provider_timeout_reasoning = 120_000;
}

abbrev fresh : World ℕ
fresh = record { health = []; cursors = []; outside = 1_000 }

abbrev request : NormalizedRequest
request = record {
  model = codes "a/m";
  messages = [];
  max_tokens = none;
  stream = false;
  tools = [];
  temperature = none;
  top_p = none;
  stop = none;
  response_format = none;
  extra = [];
}

abbrev chain : List FallbackAttempt
chain =
    record { model_id = codes "a/m"; provider = codes "a"; is_fallback = false }
    ∷ record { model_id = codes "b/m"; provider = codes "b"; is_fallback = true }
    ∷ []

abbrev second : Served
second = record {
  response = answer;
  model_id = codes "b/m";
  provider_id = codes "b";
  used_fallback = true;
}

-- Three calls of the first provider with pauses of 100 and 400 milliseconds, and one of the second.
abbrev afterwards : World ℕ
afterwards = (execute_with_fallback outside gateway (codes "o") request chain fresh).1

second_serves :
    (execute_with_fallback outside gateway (codes "o") request chain fresh).0 ≡ ok second
unfolding execute_with_fallback call_with_retries for_model split_once text_eq is_available
    try_probe record_success record_failure is_retryable retry_delay resolve_credential
    next_credential new_credential shared_keys lookup insert starts_with contains is_reasoning_model
    is_bad_request
second_serves = refl

served_at : afterwards.outside ≡ 1_528
unfolding execute_with_fallback call_with_retries for_model split_once text_eq is_available
    try_probe record_success record_failure is_retryable retry_delay resolve_credential
    next_credential new_credential shared_keys lookup insert starts_with contains is_reasoning_model
    is_bad_request
served_at = refl

execute_with_fallback_serves_example :
    ServedFrom outside gateway (codes "o") request chain fresh second afterwards
unfolding execute_with_fallback call_with_retries for_model split_once text_eq is_available
    try_probe record_success record_failure is_retryable retry_delay resolve_credential
    next_credential new_credential shared_keys lookup insert starts_with contains is_reasoning_model
    is_bad_request
execute_with_fallback_serves_example =
    execute_with_fallback_serves outside gateway (codes "o") request chain fresh second afterwards
      refl

-- The first provider alone.
abbrev alone : List FallbackAttempt
alone = record { model_id = codes "a/m"; provider = codes "a"; is_fallback = false } ∷ []

abbrev left : World ℕ
left = (execute_with_fallback outside gateway (codes "o") request alone fresh).1

execute_with_fallback_fails_example :
    Passed outside gateway (codes "o") request alone fresh left
    ⊎ (IsStatus400 down × RefusedBy outside gateway (codes "o") request alone fresh down left)
unfolding execute_with_fallback call_with_retries for_model split_once text_eq is_available
    try_probe record_success record_failure is_retryable retry_delay resolve_credential
    next_credential new_credential shared_keys lookup insert starts_with contains is_reasoning_model
    is_bad_request
execute_with_fallback_fails_example =
    execute_with_fallback_fails outside gateway (codes "o") request alone fresh down left refl

call_with_retries_outcome_example :
    (m : ℕ) × (e : ℕ) × Outcome outside
      (one_call outside gateway (codes "a") request (codes "m") (new_credential (codes "k")) 0)
      0
      m
      e
      (call_with_retries outside gateway
        (codes "a")
        request
        (codes "m")
        (new_credential (codes "k"))
        0)
call_with_retries_outcome_example =
    call_with_retries_outcome outside gateway (codes "a") request (codes "m")
      (new_credential (codes "k")) 0

-- The credentials of a database that is out of reach.
abbrev unreachable : Upstream ℕ
unreachable = record outside { find_default_credential = some (λ org id t. (err down, t + 1)) }

abbrev tripped : BreakerEntry
tripped = record {
  consecutive_failures = 5;
  opened_at = some 1_000;
  probing = false;
  recent_successes = 0;
  recent_failures = 5;
  window_started = some 900;
}

abbrev later : World ℕ
later = record { health = (codes "a", tripped) ∷ []; cursors = []; outside = 40_000 }

abbrev first_attempt : FallbackAttempt
first_attempt = record { model_id = codes "a/m"; provider = codes "a"; is_fallback = false }

missing_credential_strands_example :
    ((try_attempt unreachable gateway (codes "o") request first_attempt later).0 ≡ failed down)
    × IsStranded
        (codes "a")
        (try_attempt unreachable gateway (codes "o") request first_attempt later).1.health
    × ((b : FallbackAttempt) (v : World ℕ)
        → for_model gateway.adapters b.model_id ≡ some (codes "a")
        → IsStranded (codes "a") v.health
        → Skips unreachable gateway (codes "o") request (codes "a") b v)
unfolding for_model split_once text_eq lookup resolve_credential
missing_credential_strands_example =
    missing_credential_strands unreachable gateway (codes "o") request (codes "a") later tripped
      1_000 refl refl (omega arith) refl first_attempt down refl refl

abbrev model_of : Text → Text → ModelPricing
model_of id name = record {
  model_id = id;
  provider = name;
  display_name = [];
  tier = cheap;
  input_per_mtok = pos 100;
  output_per_mtok = pos 100;
  context_window = 1_000_000;
  supports_tools = true;
  supports_vision = true;
  supports_chat = true;
  is_active = true;
  source = [];
  cache = anthropic;
  long_context = none;
}

abbrev two_models : PricingTable
two_models =
    from_models (model_of (codes "a/s") (codes "a") ∷ model_of (codes "b/s") (codes "b") ∷ [])

abbrev routed : RoutingDecision
routed = record {
  served_model = codes "a/s";
  provider = codes "a";
  reason = passed_through;
  candidates_considered = 1;
}

get_selected : get two_models (codes "a/s") ≡ returns (some (model_of (codes "a/s") (codes "a")))
unfolding get find_canonical resolve from_models resolve_normalized lookup register_default_aliases
    add_aliases add_alias insert_models insert_model insert text_eq bare_name split_once
    to_ascii_lowercase trim
get_selected = refl

alternates_for-StandsBy_example :
    (l : List ModelPricing) × (alternates_for two_models request routed none
      ≡ returns (map named l))
    × (length l ≤ 2)
    × All
        (StandsBy two_models none (input_requirements request) (model_of (codes "a/s") (codes "a")))
        l
alternates_for-StandsBy_example =
    alternates_for-StandsBy two_models request routed none (model_of (codes "a/s") (codes "a"))
      get_selected
