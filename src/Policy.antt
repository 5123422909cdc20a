-- ===== src/Policy.antt =====
-- apps/gateway/src/engine/policy.rs: the rules of an organisation. Rules come from JSON, whose
-- parsing is of another crate; a policy is the rules that it yields.
pub mod Rules
mod Tests
use aegis_ai_gateway.Prelude.{
  ℕ, Bool, true, false, not, ◌&&◌, Option, none, some, List, [], ◌∷◌, find?, ltb, if◌then◌else◌,
}
use aegis_ai_gateway.Text.{
  Text, text_eq, to_ascii_lowercase, eq_ignore_ascii_case, trim, starts_with, strip_last,
}
use aegis_ai_gateway.Types.{
  Complexity, complexity_as_str, ModelTier, parse_tier, RoutingHint, parse_hint,
}

pub record Condition : Type 0 where
  pub complexity : Option Text
  pub model_requested : Option Text
  pub team : Option Text
  pub user : Option Text
  pub routing_mode : Option Text
  pub requires_tools : Option Bool
  pub min_input_tokens : Option ℕ

pub record Action : Type 0 where
  pub model_tier : Option Text
  pub max_model_tier : Option Text
  pub pin_model : Option Text
  pub deny : Option Bool
  pub passthrough : Option Bool
  pub routing_mode : Option Text

pub record Rule : Type 0 where
  pub condition : Condition
  pub action : Action

pub record RoutingPolicy : Type 0 where
  pub rules : List Rule

pub record PolicyContext : Type 0 where
  pub complexity : Option Complexity
  pub model_requested : Text
  pub team : Option Text
  pub user : Option Text
  pub routing_mode : Option Text
  pub requires_tools : Bool
  pub estimated_input_tokens : ℕ

unfoldable pub policy_is_empty : RoutingPolicy → Bool
policy_is_empty p = elim p.rules [ [] ↦ true | _ ∷ _ ↦ false ]

unfoldable pub matches_pattern : (pattern value : Text) → Bool
matches_pattern pattern value =
    let lowered = to_ascii_lowercase (trim value) in
    elim (strip_last b'*' (to_ascii_lowercase (trim pattern))) [
      | some prefix ↦ starts_with prefix lowered
      | none ↦ text_eq (to_ascii_lowercase (trim pattern)) lowered
    ]

unfoldable pub complexity_holds : (expected : Option Text) (actual : Option Complexity) → Bool
complexity_holds none _ = true
complexity_holds (some expected) none = false
complexity_holds (some expected) (some actual) =
    text_eq (complexity_as_str actual) (to_ascii_lowercase expected)

unfoldable pub pattern_holds : (pattern : Option Text) (value : Text) → Bool
unfolding matches_pattern
pattern_holds none value = true
pattern_holds (some pattern) value = matches_pattern pattern value

-- The tests on the team, the person and the mode.
unfoldable pub name_holds : (expected actual : Option Text) → Bool
name_holds none _ = true
name_holds (some expected) none = false
name_holds (some expected) (some actual) = eq_ignore_ascii_case actual expected

unfoldable pub tools_hold : (expected : Option Bool) (actual : Bool) → Bool
tools_hold none actual = true
tools_hold (some true) actual = actual
tools_hold (some false) actual = not actual

unfoldable pub tokens_hold : (threshold : Option ℕ) (actual : ℕ) → Bool
tokens_hold none actual = true
tokens_hold (some threshold) actual = not (ltb actual threshold)

unfoldable pub matches : Condition → PolicyContext → Bool
unfolding complexity_holds pattern_holds name_holds tools_hold tokens_hold
matches c x =
    complexity_holds c.complexity x.complexity
    && pattern_holds c.model_requested x.model_requested
    && name_holds c.team x.team
    && name_holds c.user x.user
    && name_holds c.routing_mode x.routing_mode
    && tools_hold c.requires_tools x.requires_tools
    && tokens_hold c.min_input_tokens x.estimated_input_tokens

unfoldable pub first_match : List Rule → PolicyContext → Option Action
unfolding matches
first_match [] x = none
first_match (r ∷ rs) x = if matches r.condition x then some r.action else first_match rs x

unfoldable pub evaluate : RoutingPolicy → PolicyContext → Option Action
unfolding first_match
evaluate p x = first_match p.rules x

unfoldable pub action_target_tier : Action → Option ModelTier
action_target_tier a = elim a.model_tier [ none ↦ none | some t ↦ some (parse_tier t) ]

unfoldable pub tier_ceiling : Action → Option ModelTier
tier_ceiling a = elim a.max_model_tier [ none ↦ none | some t ↦ some (parse_tier t) ]

unfoldable pub is_deny : Action → Bool
is_deny a = elim a.deny [ none ↦ false | some b ↦ b ]

unfoldable pub is_passthrough : Action → Bool
is_passthrough a = elim a.passthrough [ none ↦ false | some b ↦ b ]

unfoldable pub routing_mode_hint : Action → Option RoutingHint
routing_mode_hint a = elim a.routing_mode [ none ↦ none | some m ↦ some (parse_hint (some m)) ]
