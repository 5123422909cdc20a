-- ===== src/Policy/Tests.antt =====
-- A policy of two rules.
use aegis_ai_gateway.Prelude.{true, false, none, some, [], ◌∷◌}
use aegis_ai_gateway.Policy.{Rule, RoutingPolicy, PolicyContext}
use aegis_ai_gateway.Text.{codes}
use aegis_ai_gateway.Types.{simple}

abbrev interns_first : Rule
interns_first = record {
  condition = record {
    complexity = none;
    model_requested = none;
    team = some (codes "interns");
    user = none;
    routing_mode = none;
    requires_tools = none;
    min_input_tokens = none;
  };
  action = record {
    model_tier = none;
    max_model_tier = none;
    pin_model = none;
    deny = some true;
    passthrough = none;
    routing_mode = none;
  };
}

abbrev one_rule : RoutingPolicy
one_rule = record { rules = interns_first ∷ [] }

abbrev intern_asks : PolicyContext
intern_asks = record {
  complexity = some simple;
  model_requested = codes "gpt-4o";
  team = some (codes "interns");
  user = none;
  routing_mode = some (codes "auto");
  requires_tools = false;
  estimated_input_tokens = 12;
}
