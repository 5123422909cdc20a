-- ===== src/Features.antt =====
-- apps/gateway/src/billing/features.rs: which plan includes which feature.
mod Tests
use aegis_ai_gateway.Prelude.{ℕ, Bool, true, false, leb, List, [], ◌∷◌, filter, if◌then◌else◌}
use aegis_ai_gateway.Text.{Text, codes, text_eq}

pub data PlanTier : Type 0 where
  free pro team enterprise_plan : PlanTier

-- The order of the variants.
abbrev pub plan_rank : PlanTier → ℕ
plan_rank free = 0
plan_rank pro = 1
plan_rank team = 2
plan_rank enterprise_plan = 3

unfoldable pub plan_le : PlanTier → PlanTier → Bool
plan_le a b = leb (plan_rank a) (plan_rank b)

-- `PlanTier::parse`
unfoldable pub parse_plan : Text → PlanTier
parse_plan plan =
    if text_eq plan (codes "pro")
    then pro
    else if text_eq plan (codes "team")
    then team
    else if text_eq plan (codes "enterprise")
    then enterprise_plan
    else free

unfoldable pub plan_as_str : PlanTier → Text
plan_as_str free = codes "free"
plan_as_str pro = codes "pro"
plan_as_str team = codes "team"
plan_as_str enterprise_plan = codes "enterprise"

pub data Feature : Type 0 where
  byok savings budgets policies team_management enterprise : Feature

abbrev pub all_features : List Feature
all_features = byok ∷ savings ∷ budgets ∷ policies ∷ team_management ∷ enterprise ∷ []

unfoldable pub min_plan : Feature → PlanTier
min_plan byok = pro
min_plan savings = pro
min_plan budgets = team
min_plan policies = team
min_plan team_management = team
min_plan enterprise = enterprise_plan

unfoldable pub feature_as_str : Feature → Text
feature_as_str byok = codes "byok"
feature_as_str savings = codes "savings"
feature_as_str budgets = codes "budgets"
feature_as_str policies = codes "policies"
feature_as_str team_management = codes "team_management"
feature_as_str enterprise = codes "enterprise"

unfoldable pub plan_includes : Text → Feature → Bool
unfolding plan_le parse_plan min_plan
plan_includes plan feature = plan_le (min_plan feature) (parse_plan plan)

unfoldable pub plan_features : Text → List Feature
unfolding plan_le parse_plan min_plan
plan_features plan =
    let tier = parse_plan plan in filter (λ f. plan_le (min_plan f) tier) all_features
