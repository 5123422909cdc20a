-- ===== src/Budget/Headroom.antt =====
-- apps/gateway/src/middleware/budget.rs: what a request may still spend, the check that reserves
-- nothing, and the projections. The store is any `KvStore`.
use text.Mathlib.Text.{◌==◌ as str_eq}
use aegis_ai_gateway.Prelude.{
  ℕ, ◌+◌, ◌/◌, ◌^◌, ◌%◌, Bool, true, false, not, List, [], ◌∷◌, Option, none, some, if◌then◌else◌,
  ltb, max,
}
use aegis_ai_gateway.Int.{ℤ, pos, leb_ℤ, max_ℤ, min_ℤ}
use aegis_ai_gateway.Int.I64.{wrap, wrapping_sub}
use aegis_ai_gateway.Text.{Text}
use aegis_ai_gateway.Store.{KvStore}
use aegis_ai_gateway.Usage.{Month, read_counter, current_spend, current_requests}
use aegis_ai_gateway.Auth.{AuthContext}
use aegis_ai_gateway.Limits.{Limit, BudgetLimits, default_limits, hard_limit_of}
use aegis_ai_gateway.Budget.{BudgetDecision, Scope, scopes}

module _ {S : Type 0} ⦃k : KvStore S⦄ where
  unfoldable pub tightest_headroom : List Scope → Option ℤ → S → Option ℤ × S
  unfolding read_counter
  tightest_headroom [] tightest s = (tightest, s)
  tightest_headroom (scope ∷ rest) tightest s = elim scope.limit [
    | none ↦ tightest_headroom rest tightest s
    | some limit ↦ elim scope.hard [
      | false ↦ tightest_headroom rest tightest s
      | true ↦
          let (spent, s1) = read_counter scope.key s in
          let remaining = max_ℤ (wrapping_sub limit spent) (pos 0) in
          let next : ℤ = elim tightest [
            | none ↦ remaining
            | some current ↦ min_ℤ current remaining
          ] in
          tightest_headroom rest (some next) s1
    ]
  ]

  unfoldable pub headroom_mc : AuthContext → BudgetLimits → Option Text → Month → S → Option ℤ × S
  unfolding tightest_headroom
  headroom_mc auth limits region now s = tightest_headroom (scopes auth limits region now) none s

  -- The first scope whose counter has reached its limit.
  first_reached : List Scope → S → Option BudgetDecision × S
  unfolding read_counter
  first_reached [] s = (none, s)
  first_reached (scope ∷ rest) s = elim scope.limit [
    | none ↦ first_reached rest s
    | some limit ↦
        let (spend, s1) = read_counter scope.key s in
        let rest_decides = first_reached rest s1 in
        if leb_ℤ limit spend
        then (
          some (record { allowed = false; spend = spend; limit = some limit; scope = scope.name }),
          s1,
        )
        else rest_decides
  ]

  unfoldable pub check :
      AuthContext → Option ℤ → Option ℤ → Option (Text × ℤ) → Month → S → BudgetDecision × S
  unfolding first_reached
  check auth org_budget_mc team_budget_mc region_budget now s =
      let hard_if_some : Option ℤ → Option Limit =
        λ o. elim o [ none ↦ none | some l ↦ some (hard_limit_of l) ] in
      let limits = record default_limits {
        org = hard_if_some org_budget_mc;
        team = hard_if_some team_budget_mc;
        region = elim region_budget [ none ↦ none | some r ↦ some (hard_limit_of r.1) ];
      } in
      let region_name : Option Text = elim region_budget [ none ↦ none | some r ↦ some r.0 ] in
      let (reached, s1) = first_reached (scopes auth limits region_name now) s in
      elim reached [
        | some decision ↦ (decision, s1)
        | none ↦
            let (spend, s2) = current_spend auth.org_id now s1 in
            (
              record {
                allowed = true;
                spend = spend;
                limit = org_budget_mc;
                scope = "organization";
              },
              s2,
            )
      ]

  unfoldable pub check_free_tier_allowance : AuthContext → ℕ → Month → S → Bool × S
  check_free_tier_allowance auth monthly_allowance now s =
      if not (str_eq auth.plan "free")
      then (true, s)
      else let (n, s1) = current_requests auth.org_id now s in (ltb n monthly_allowance, s1)

-- `max_tokens`, or a third of the input and at least 256. `input_tokens` is the estimate for the
-- request.
unfoldable pub projected_token_counts : ℕ → Option ℕ → ℕ × ℕ
projected_token_counts input_tokens none = (input_tokens, max (input_tokens / 3) 256)
projected_token_counts input_tokens (some max_tokens) = (input_tokens, max_tokens)

unfoldable pub project_tokens : ℕ → Option ℕ → ℤ
unfolding projected_token_counts
project_tokens input_tokens max_tokens =
    let (input, output) = projected_token_counts input_tokens max_tokens in
    wrap (pos ((input + output) % 2 ^ 64))
