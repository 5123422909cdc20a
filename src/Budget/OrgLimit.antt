-- ===== src/Budget/OrgLimit.antt =====
-- apps/gateway/src/middleware/budget.rs: the hard limit of an organisation over a run of checks.
use mathlib.Core.List.{Memᴰ}
use mathlib.Core.List.Memᴰ.{head, tail}
use aegis_ai_gateway.Prelude.{
  ◌^◌, ◌≤◌, ◌≡◌, refl, sym, ap, subst, ◌∙◌, ◌⊎◌, inl, inr, true, Option, some, List, [], ◌∷◌, ◌++◌,
  All,
}
use aegis_ai_gateway.Int.{ℤ, pos, pos_part, ◌+ℤ◌, ◌≤ℤ◌}
use aegis_ai_gateway.Text.{Text}
use aegis_ai_gateway.Store.{KvStore}
use aegis_ai_gateway.Store.Counters.{Counters}
use aegis_ai_gateway.Usage.{Month, org_spend_key, org_tokens_key}
use aegis_ai_gateway.Auth.{AuthContext}
use aegis_ai_gateway.Limits.{BudgetLimits, hard_limit_of}
use aegis_ai_gateway.Budget.{
  Scope, scopes, scope_of, ceiling, is_hard, Reservation, BudgetOutcome, BudgetDecision, allowed,
  denied, check_and_reserve,
}
use aegis_ai_gateway.Budget.Bumps.{bump_laws, amount_at}
use aegis_ai_gateway.Budget.Reserve.{
  refusal_keeps_counters, allowed_within_limits, allowed_counts, granted_keys, enough-Room,
  check_and_reserve-IsUp,
}
use aegis_ai_gateway.Budget.OneKey.{scopes_once, held-money_at, held-tokens_at}

outcome_cases :
    (o : BudgetOutcome)
    → ((r : Reservation) × (o ≡ allowed r)) ⊎ ((bs : List BudgetDecision) × (o ≡ denied bs))
outcome_cases (allowed r) = inl (r, refl)
outcome_cases (denied bs) = inr (bs, refl)

mem_last : (xs : List Scope) (scope : Scope) → Memᴰ scope (xs ++ scope ∷ [])
mem_last [] scope = head refl
mem_last (x ∷ xs) scope = tail (mem_last xs scope)

-- The scope of the organisation itself.
org_scope : AuthContext → BudgetLimits → Month → Scope
org_scope auth limits now =
    scope_of "organization" (org_spend_key auth.org_id now) limits.org
      (org_tokens_key auth.org_id now) limits.org_tokens

org_scope_last :
    (auth : AuthContext) (limits : BudgetLimits) (region : Option Text) (now : Month)
    → Memᴰ (org_scope auth limits now) (scopes auth limits region now)
unfolding scopes org_scope
org_scope_last auth limits region now = mem_last _ (org_scope auth limits now)

org_scope_hard :
    (auth : AuthContext) (limits : BudgetLimits) (now : Month) (l : ℤ)
    → limits.org ≡ some (hard_limit_of l)
    → ((org_scope auth limits now).hard ≡ true)
      × ((org_scope auth limits now).limit ≡ some l)
      × ((org_scope auth limits now).key ≡ org_spend_key auth.org_id now)
unfolding org_scope scope_of ceiling is_hard
org_scope_hard auth limits now l e = (ap is_hard e, ap ceiling e, refl)

module _ {S : Type 0} ⦃k : KvStore S⦄ (c : Counters S) (auth : AuthContext) (limits : BudgetLimits)
    (region : Option Text) (now : Month) (mc tokens : ℤ) (s : S) (up : c.IsUp s)
    (small_mc : pos_part mc ≤ 2 ^ 58) (small_tokens : pos_part tokens ≤ 2 ^ 58)
    (small_counters : (j : Text) → pos_part (c.counter j s) ≤ 2 ^ 62) where
  -- What a granted reservation holds on the spend of the organisation itself.
  pub org_reserved :
      (r : Reservation)
      → (check_and_reserve auth limits region mc tokens now s).0 ≡ allowed r
      → (amount_at (org_spend_key auth.org_id now) r.keys (pos_part mc) ≡ pos_part mc)
        × (amount_at (org_spend_key auth.org_id now) r.token_keys (pos_part tokens) ≡ 0)
        × (c.counter
              (org_spend_key auth.org_id now)
              (check_and_reserve auth limits region mc tokens now s).1
            ≡ c.counter (org_spend_key auth.org_id now) s +ℤ pos (pos_part mc))
  org_reserved r granted =
      let j = org_spend_key auth.org_id now in
      let moved =
        allowed_counts c auth limits region now mc tokens s up small_mc small_tokens small_counters
          r granted j in
      let keys =
        granted_keys c auth limits region now mc tokens s up small_mc small_tokens small_counters r
          granted in
      let room =
        enough-Room c auth limits region now mc tokens s up small_mc small_tokens small_counters in
      let once = scopes_once auth limits region now (pos_part mc) (pos_part tokens) in
      let money =
        held-money_at c (scopes auth limits region now) (pos_part mc) (pos_part tokens) s j up
          room in
      let held_tokens =
        held-tokens_at c (scopes auth limits region now) (pos_part mc) (pos_part tokens) s j up
          room in
      let m : amount_at j r.keys (pos_part mc) ≡ pos_part mc = rw⁻¹ keys.0 (money ∙ once.0) in
      let t : amount_at j r.token_keys (pos_part tokens) ≡ 0 = rw⁻¹ keys.1 (held_tokens ∙ once.1) in
      (m, t, rw moved (rw (m, t) (omega bump_laws)))

  -- One check keeps the spend of the organisation within its hard limit.
  check_stays_within_limit :
      (l : ℤ)
      → limits.org ≡ some (hard_limit_of l)
      → c.counter (org_spend_key auth.org_id now) s ≤ℤ l
      → c.counter
          (org_spend_key auth.org_id now)
          (check_and_reserve auth limits region mc tokens now s).1
        ≤ℤ l
  check_stays_within_limit l limited within =
      let j = org_spend_key auth.org_id now in
      elim (outcome_cases (check_and_reserve auth limits region mc tokens now s).0) [
        | inr (bs, refused) ↦
            let same =
              refusal_keeps_counters c auth limits region now mc tokens s up small_mc small_tokens
                small_counters bs refused j in
            rw same within
        | inl (r, granted) ↦
            let own = org_scope_hard auth limits now l limited in
            let fits =
              allowed_within_limits c auth limits region now mc tokens s up small_mc small_tokens
                small_counters r (org_scope auth limits now) l granted
                (org_scope_last auth limits region now) own.0 own.1 in
            let fits' : c.counter j s +ℤ pos (pos_part mc) ≤ℤ l = rw own.2 at fits.0 in
            rw (org_reserved r granted).2 fits'
      ]

-- What one check is asked about.
pub record Check : Type 0 where
  pub auth : AuthContext
  pub limits : BudgetLimits
  pub region : Option Text
  pub cost : ℤ
  pub tokens : ℤ

-- The checks are of requests of the organisation, whatever else stands in their contexts, and find its
-- hard limit.
abbrev pub AreOf : Text → ℤ → List Check → Type 0
AreOf org_id l = All (λ x. (x.auth.org_id ≡ org_id) × (x.limits.org ≡ some (hard_limit_of l)))

module _ {S : Type 0} ⦃k : KvStore S⦄ (c : Counters S) (now : Month) where
  -- The store after a run of checks, with what they reserved on its counters.
  unfoldable pub checked : List Check → S → S
  checked [] s = s
  checked (x ∷ xs) s =
      checked xs (check_and_reserve x.auth x.limits x.region x.cost x.tokens now s).1

  -- No check of the run meets amounts or counters that are near the bounds of an `i64`.
  unfoldable pub IsCalm : List Check → S → Type 0
  IsCalm [] s = Unit
  IsCalm (x ∷ xs) s =
      (pos_part x.cost ≤ 2 ^ 58)
      × (pos_part x.tokens ≤ 2 ^ 58)
      × ((j : Text) → pos_part (c.counter j s) ≤ 2 ^ 62)
      × IsCalm xs (check_and_reserve x.auth x.limits x.region x.cost x.tokens now s).1

  -- While the store answers and neither amounts nor counters come near the bounds of an `i64`: if the
  -- month's spend of an organisation is within its hard limit, what is reserved included, it still is
  -- after any run of checks in that month, for requests of its keys, teams and users, whatever else
  -- limits them and whether they are let through or not, and with nothing released between.
  pub spend_stays_within_limit :
      (org_id : Text) (l : ℤ) (xs : List Check) (s : S)
      → c.IsUp s
      → IsCalm xs s
      → AreOf org_id l xs
      → c.counter (org_spend_key org_id now) s ≤ℤ l
      → c.counter (org_spend_key org_id now) (checked xs s) ≤ℤ l
  unfolding checked IsCalm
  spend_stays_within_limit org_id l [] s up calm of_org within = within
  spend_stays_within_limit org_id l (x ∷ xs) s up (cost, tokens, counters, calm) of_org within =
      let (same, limited) = of_org.0 in
      let next =
        check_and_reserve-IsUp c x.auth x.limits x.region now x.cost x.tokens s up cost tokens
          counters in
      let step =
        check_stays_within_limit c x.auth x.limits x.region now x.cost x.tokens s up cost tokens
          counters l limited
          (subst (λ n. c.counter (org_spend_key n now) s ≤ℤ l) (sym same) within) in
      spend_stays_within_limit org_id l xs
        (check_and_reserve x.auth x.limits x.region x.cost x.tokens now s).1 next calm of_org.1
        (subst
          (λ n.
            c.counter (org_spend_key n now)
              (check_and_reserve x.auth x.limits x.region x.cost x.tokens now s).1
            ≤ℤ l)
          same step)
