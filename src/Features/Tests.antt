-- ===== src/Features/Tests.antt =====
-- apps/gateway/src/billing/features.rs: names read back, and plans that include more.
use aegis_ai_gateway.Prelude.{◌≡◌, refl, [], ◌∷◌}
use aegis_ai_gateway.Features.{
  PlanTier, free, pro, team, enterprise_plan, byok, savings, parse_plan, plan_as_str, plan_features,
  all_features,
}
use aegis_ai_gateway.Text.{codes, text_eq}

-- Each tier is read back from its name.
parse_plan-plan_as_str : (t : PlanTier) → parse_plan (plan_as_str t) ≡ t
unfolding parse_plan plan_as_str text_eq
parse_plan-plan_as_str free = refl
parse_plan-plan_as_str pro = refl
parse_plan-plan_as_str team = refl
parse_plan-plan_as_str enterprise_plan = refl

free_includes_nothing : plan_features (codes "free") ≡ []
unfolding plan_features text_eq
free_includes_nothing = refl

pro_includes : plan_features (codes "pro") ≡ byok ∷ savings ∷ []
unfolding plan_features text_eq
pro_includes = refl

enterprise_includes_all : plan_features (codes "enterprise") ≡ all_features
unfolding plan_features text_eq
enterprise_includes_all = refl
