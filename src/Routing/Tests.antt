-- ===== src/Routing/Tests.antt =====
-- Requests for one of two models.
use mathlib.Core.List.{Memᴰ}
use mathlib.Core.List.Memᴰ.{head, tail}
use aegis_ai_gateway.Prelude.{
  ℕ, ◌≤◌, ◌≡◌, ◌↔◌, refl, sym, ap, subst, true, false, Option, none, some, [], ◌∷◌,
}
use aegis_ai_gateway.Error.{AegisError, Result, ok, err}
use aegis_ai_gateway.Fallback.{is_available, state, lets_through}
use aegis_ai_gateway.Int.{pos}
use aegis_ai_gateway.Panic.{returns}
use aegis_ai_gateway.Policy.{Action, is_deny}
use aegis_ai_gateway.Pricing.{ModelPricing, no_cache}
use aegis_ai_gateway.Pricing.Names.{PricingTable, get, resolve, resolve_normalized, find_canonical}
use aegis_ai_gateway.Pricing.Names.Candidates.{price_le, all_active}
use aegis_ai_gateway.Pricing.Names.Candidates.Order.{IsCheaperThan}
use aegis_ai_gateway.Pricing.Names.Keyed.{mem_lookup}
use aegis_ai_gateway.Routing.{
  RoutingDecision, RoutingInputs, Judgement, requirements_of, is_allowed, is_provider_configured,
}
use aegis_ai_gateway.Routing.Decide.{route, route_by_complexity, matched_action}
use aegis_ai_gateway.Routing.Permitted.{
  IsPermitted, IsSafe, route_by_complexity-IsSafe, complex_is_served_as_requested,
}
use aegis_ai_gateway.Routing.Refusal.{route_refuses_iff_denied}
use aegis_ai_gateway.Routing.Select.{serve, is_usable, within_plan, select_at_tier}
use aegis_ai_gateway.Routing.Selected.{select_at_tier-cheaper}
use aegis_ai_gateway.Routing.Total.{HasAsciiPins, route_returns}
use aegis_ai_gateway.Table.{lookup}
use aegis_ai_gateway.Text.{Text, codes, text_eq, to_ascii_lowercase, trim}
use aegis_ai_gateway.Text.Utf8.{IsAscii, IsAscii-of_test}
use aegis_ai_gateway.Types.{
  ModelTier, cheap, mid, premium, rank, Complexity, simple, complex, auto, is_passthrough_mode,
  by_policy, RoutingReason,
}
use aegis_ai_gateway.Types.Request.{NormalizedRequest, simple_request}

abbrev priced_model : Text → ModelTier → ℕ → ModelPricing
priced_model id tier price = record {
  model_id = id;
  provider = codes "a";
  display_name = [];
  tier = tier;
  input_per_mtok = pos price;
  output_per_mtok = pos price;
  context_window = 1_000;
  supports_tools = true;
  supports_vision = false;
  supports_chat = true;
  is_active = true;
  source = [];
  cache = no_cache;
  long_context = none;
}

abbrev low_model : ModelPricing
low_model = priced_model (codes "a/s") cheap 100

abbrev high_model : ModelPricing
high_model = priced_model (codes "a/b") premium 400

abbrev both_models : PricingTable
both_models = record {
  by_canonical = (codes "a/b", high_model) ∷ (codes "a/s", low_model) ∷ [];
  aliases = (codes "a/b", codes "a/b") ∷ (codes "a/s", codes "a/s") ∷ [];
}

abbrev judged : Complexity → Judgement
judged c = record {
  complexity = λ r. c;
  by_price = λ l. price_le;
  by_domain = λ r l. none;
  select = none;
}

abbrev plain_inputs : RoutingInputs
plain_inputs = record {
  hint = auto;
  policy = none;
  team = none;
  user = none;
  allowed_models = none;
  plan_tier_ceiling = none;
  budget_headroom_mc = none;
  affinity_model = none;
  configured_providers = none;
}

abbrev ask : NormalizedRequest
ask = simple_request (codes "a/b") (codes "hello")

get_high : get both_models (codes "a/b") ≡ returns (some high_model)
unfolding get find_canonical resolve resolve_normalized lookup text_eq to_ascii_lowercase trim
get_high = refl

get_asked : get both_models ask.model ≡ returns (some high_model)
unfolding get find_canonical resolve resolve_normalized lookup text_eq to_ascii_lowercase trim
    simple_request
get_asked = refl

select_at_tier-cheaper_example :
    (o : Option RoutingDecision) × (select_at_tier
        (judged simple)
        both_models
        []
        0
        plain_inputs
        ask
        high_model
        mid
        by_policy
      ≡ returns o)
    × ((d : RoutingDecision)
        → o ≡ some d
        → (m : ModelPricing) × (d.served_model ≡ m.model_id)
          × (d.provider ≡ m.provider)
          × Memᴰ m (all_active both_models)
          × IsCheaperThan high_model (requirements_of ask) m
          × (rank m.tier ≤ rank mid)
          × (is_usable (judged simple) both_models [] 0 plain_inputs ask m ≡ true))
select_at_tier-cheaper_example =
    select_at_tier-cheaper (judged simple) both_models [] 0 plain_inputs ask high_model high_model
      mid by_policy get_high

route_by_complexity-IsSafe_example :
    (d : RoutingDecision) × (route_by_complexity
        (judged simple)
        both_models
        []
        0
        plain_inputs
        ask
        high_model
        auto
      ≡ returns (ok d))
    × IsSafe (judged simple) both_models [] 0 plain_inputs ask high_model d
route_by_complexity-IsSafe_example =
    route_by_complexity-IsSafe (judged simple) both_models [] 0 plain_inputs ask high_model
      high_model auto get_high

nothing_matched : matched_action (judged complex) both_models [] 0 plain_inputs ask ≡ none
unfolding matched_action
nothing_matched = refl

high-IsPermitted : IsPermitted (judged complex) both_models [] 0 plain_inputs ask high_model
unfolding is_usable within_plan is_allowed is_provider_configured is_available state lookup
    lets_through
high-IsPermitted = (refl, refl)

complex_is_served_as_requested_example :
    (reason : RoutingReason) × (route (judged complex) both_models [] 0 plain_inputs ask
      ≡ returns (ok (serve high_model reason 0)))
complex_is_served_as_requested_example =
    complex_is_served_as_requested (judged complex) both_models [] 0 plain_inputs ask high_model
      get_asked refl nothing_matched refl high-IsPermitted

route_refuses_iff_denied_example :
    ((e : AegisError) × (route (judged simple) both_models [] 0 plain_inputs ask ≡ returns (err e)))
    ↔ ((is_passthrough_mode auto ≡ false)
        × (a : Action) × (matched_action (judged simple) both_models [] 0 plain_inputs ask ≡ some a)
        × (is_deny a ≡ true))
route_refuses_iff_denied_example =
    route_refuses_iff_denied (judged simple) both_models [] 0 plain_inputs ask high_model get_asked

both-IsAscii :
    (name : Text) (m : ModelPricing)
    → lookup name both_models.by_canonical ≡ some m
    → IsAscii m.model_id
both-IsAscii name m h = elim (mem_lookup name m both_models.by_canonical h) [
  | head e ↦
      subst (λ v. IsAscii v.model_id) (sym (ap (λ p. p.1) e)) (IsAscii-of_test (codes "a/b") refl)
  | tail (head e) ↦
      subst (λ v. IsAscii v.model_id) (sym (ap (λ p. p.1) e)) (IsAscii-of_test (codes "a/s") refl)
  | tail (tail n) ↦ elim n [ ]
]

no_pins : HasAsciiPins (judged simple) both_models [] 0 plain_inputs ask
unfolding matched_action
no_pins = (λ id e. cc, λ a id e p. cc)

asked-IsAscii : IsAscii ask.model
unfolding simple_request
asked-IsAscii = IsAscii-of_test (codes "a/b") refl

route_returns_example :
    (r : Result RoutingDecision) × (route (judged simple) both_models [] 0 plain_inputs ask
      ≡ returns r)
route_returns_example =
    route_returns (judged simple) both_models [] 0 plain_inputs ask asked-IsAscii both-IsAscii
      no_pins
