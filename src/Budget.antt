-- ===== src/Budget.antt =====
-- apps/gateway/src/middleware/budget.rs: reserving a projected cost against every counter that a
-- request touches, and giving it back. The store is any `KvStore`; `Utc::now()` is the argument
-- `now`. The logging of a dropped reservation and the percentage for the dashboard are left out.
pub mod Bumps
pub mod Passes
pub mod Held
pub mod Within
pub mod Undo
pub mod Reserve
pub mod Outage
pub mod OneKey
pub mod OrgLimit
pub mod Headroom
mod Tests
use text.Mathlib.Text.{◌==◌ as str_eq}
use aegis_ai_gateway.Prelude.{
  ℕ, ◌+◌, ◌/◌, ◌^◌, ◌%◌, Bool, true, false, not, ◌&&◌, ◌||◌, String, List, [], ◌∷◌, ◌++◌, map,
  Option, none, some, if◌then◌else◌, ltb, max,
}
use aegis_ai_gateway.Int.{ℤ, pos, ltb_ℤ, leb_ℤ, eqb_ℤ, max_ℤ, min_ℤ}
use aegis_ai_gateway.Int.I64.{wrap, wrapping_sub, wrapping_neg}
use aegis_ai_gateway.Error.{Result, ok, err, AegisError, BudgetBreach, budget_exceeded}
use aegis_ai_gateway.Text.{Text}
use aegis_ai_gateway.Store.{KvStore}
use aegis_ai_gateway.Usage.{
  Month, bump, counter_ttl, read_counter, current_spend, current_requests, key_spend_key,
  team_spend_key, user_spend_key, org_spend_key, org_region_spend_key, team_tokens_key,
  user_tokens_key, org_tokens_key,
}
use aegis_ai_gateway.Auth.{AuthContext}
use aegis_ai_gateway.Limits.{Limit, BudgetLimits, default_limits, hard_limit_of, tighter}

pub record BudgetDecision : Type 0 where
  pub allowed : Bool
  pub spend : ℤ
  pub limit : Option ℤ
  pub scope : String

or_zero : Option ℤ → ℤ
or_zero none = pos 0
or_zero (some n) = n

unfoldable pub into_error : BudgetDecision → AegisError
unfolding or_zero
into_error d = budget_exceeded d.spend (or_zero d.limit) []

unfoldable pub breach_of : BudgetDecision → BudgetBreach
unfolding or_zero
breach_of d = record {
  scope = d.scope;
  spend_micro_cents = d.spend;
  limit_micro_cents = or_zero d.limit;
}

unfoldable pub denial_to_error : List BudgetDecision → AegisError
unfolding breach_of or_zero
denial_to_error [] = budget_exceeded (pos 0) (pos 0) []
denial_to_error (primary ∷ rest) =
    budget_exceeded primary.spend (or_zero primary.limit) (map breach_of rest)

pub record Scope : Type 0 where
  pub name : String
  pub key : Text
  pub limit : Option ℤ
  pub hard : Bool
  pub token_key : Option Text
  pub token_limit : Option ℤ

-- `limit.map(|l| l.limit_mc)` and `limit.is_none_or(|l| l.hard)`
ceiling : Option Limit → Option ℤ
ceiling none = none
ceiling (some l) = some l.limit_mc

is_hard : Option Limit → Bool
is_hard none = true
is_hard (some l) = l.hard

-- `tokens.map(|_| key)`
key_if_limited : Text → Option ℤ → Option Text
key_if_limited key none = none
key_if_limited key (some _) = some key

-- The tighter of the ceiling on the key's row and that of the `budgets` table.
unfoldable pub key_limit : Option ℤ → Option Limit → Option Limit
unfolding tighter
key_limit (some a) (some b) = some (tighter (some (hard_limit_of a)) b)
key_limit (some a) none = some (hard_limit_of a)
key_limit none b = b

scope_of : String → Text → Option Limit → Text → Option ℤ → Scope
unfolding ceiling is_hard key_if_limited
scope_of name key limit token_key tokens = record {
  name = name;
  key = key;
  limit = ceiling limit;
  hard = is_hard limit;
  token_key = key_if_limited token_key tokens;
  token_limit = tokens;
}

-- `if let Some(id) = id { scopes.push(...) }`
push_for : Option Text → (Text → Scope) → List Scope
push_for none scope = []
push_for (some id) scope = scope id ∷ []

unfoldable pub scopes : AuthContext → BudgetLimits → Option Text → Month → List Scope
unfolding scope_of push_for key_limit
scopes auth limits region at =
    push_for auth.api_key_id (λ id.
      scope_of "key" (key_spend_key id at) (key_limit auth.monthly_budget_mc limits.key) [] none)
    ++ push_for auth.team_id (λ id.
      scope_of "team" (team_spend_key id at) limits.team (team_tokens_key id at) limits.team_tokens)
    ++ push_for auth.user_id (λ id.
      scope_of "user" (user_spend_key id at) limits.user (user_tokens_key id at) limits.user_tokens)
    ++ push_for region
        (λ r. scope_of "region" (org_region_spend_key auth.org_id r at) limits.region [] none)
    ++ scope_of "organization" (org_spend_key auth.org_id at) limits.org
        (org_tokens_key auth.org_id at) limits.org_tokens
      ∷ []

pub record Reservation : Type 0 where
  pub keys : List Text
  pub amount_mc : ℤ
  pub token_keys : List Text
  pub reserved_tokens : ℤ
  pub resolved : Bool

pub data BudgetOutcome : Type 0 where
  allowed : Reservation → BudgetOutcome
  denied : List BudgetDecision → BudgetOutcome

abbrev pub commit : Reservation → ℤ
commit r = r.amount_mc

-- The two ways to be over: the total crosses the line, or it was reached before.
unfoldable pub is_over : ℤ → ℤ → ℤ → Bool
is_over total projected limit = ltb_ℤ limit total || leb_ℤ limit (wrapping_sub total projected)

breach_at : String → ℤ → ℤ → ℤ → BudgetDecision
breach_at name total projected limit = record {
  allowed = false;
  spend = max_ℤ (wrapping_sub total projected) (pos 0);
  limit = some limit;
  scope = name;
}

unfoldable pub money_breach : Scope → ℤ → ℤ → List BudgetDecision
unfolding is_over breach_at
money_breach scope total projected = elim scope.limit [
  | none ↦ []
  | some limit ↦
      if scope.hard && is_over total projected limit
      then breach_at scope.name total projected limit ∷ []
      else []
]

unfoldable pub token_breach : Scope → ℤ → ℤ → List BudgetDecision
unfolding is_over breach_at
token_breach scope total projected = elim scope.token_limit [
  | none ↦ []
  | some limit ↦
      if is_over total projected limit then breach_at scope.name total projected limit ∷ [] else []
]

-- What a pass over the scopes leaves: `held`, `held_tokens`, `breaches` and the store.
pub record Pass (S : Type 0) : Type 0 where
  pub held : List Text
  pub held_tokens : List Text
  pub breaches : List BudgetDecision
  pub store : S

module _ {S : Type 0} ⦃k : KvStore S⦄ where
  unfoldable pub hold_tokens : Scope → Option Text → ℤ → S → Pass S
  unfolding token_breach
  hold_tokens scope none tokens s = record { held = []; held_tokens = []; breaches = []; store = s }
  hold_tokens scope (some key) tokens s =
      let (answer, s1) = k.incr_by key tokens (some counter_ttl) s in
      elim answer [
        | err _ ↦ record { held = []; held_tokens = []; breaches = []; store = s1 }
        | ok total ↦ record {
          held = [];
          held_tokens = key ∷ [];
          breaches = token_breach scope total tokens;
          store = s1;
        }
      ]

  unfoldable pub reserve_tokens : Scope → ℤ → S → Pass S
  unfolding hold_tokens
  reserve_tokens scope tokens s = hold_tokens scope scope.token_key tokens s

  -- The loop: a scope whose counter does not answer is skipped.
  unfoldable pub reserve_scopes : List Scope → ℤ → ℤ → S → Pass S
  unfolding reserve_tokens money_breach
  reserve_scopes [] mc tokens s = record { held = []; held_tokens = []; breaches = []; store = s }
  reserve_scopes (scope ∷ rest) mc tokens s =
      let (answer, s1) = k.incr_by scope.key mc (some counter_ttl) s in
      elim answer [
        | err _ ↦ reserve_scopes rest mc tokens s1
        | ok total ↦
            let held_here = reserve_tokens scope tokens s1 in
            let later = reserve_scopes rest mc tokens held_here.store in
            record {
              held = scope.key ∷ later.held;
              held_tokens = held_here.held_tokens ++ later.held_tokens;
              breaches = money_breach scope total mc ++ held_here.breaches ++ later.breaches;
              store = later.store;
            }
      ]

  unfoldable pub bump_all : ℤ → List Text → S → S
  unfolding bump
  bump_all by [] s = s
  bump_all by (key ∷ keys) s = bump_all by keys (bump by key s)

  -- What `release` and the roll-back of a refusal do.
  unfoldable pub give_back : ℤ → List Text → S → S
  unfolding bump_all
  give_back amount keys s =
      if eqb_ℤ amount (pos 0) then s else bump_all (wrapping_neg amount) keys s

  unfoldable pub release : Reservation → S → S
  unfolding give_back
  release r s = give_back r.reserved_tokens r.token_keys (give_back r.amount_mc r.keys s)

  -- The end of `check_and_reserve`, from `held`, `held_tokens` and `breaches`.
  unfoldable pub decide :
      ℤ → ℤ → List Text → List Text → List BudgetDecision → S → BudgetOutcome × S
  unfolding give_back
  decide mc tokens held held_tokens [] s = (
    allowed (record {
      keys = held;
      amount_mc = mc;
      token_keys = held_tokens;
      reserved_tokens = elim held_tokens [ [] ↦ pos 0 | _ ∷ _ ↦ tokens ];
      resolved = false;
    }),
    s,
  )
  decide mc tokens held held_tokens (b ∷ bs) s =
      (denied (b ∷ bs), give_back tokens held_tokens (give_back mc held s))

  unfoldable pub check_and_reserve :
      AuthContext → BudgetLimits → Option Text → ℤ → ℤ → Month → S → BudgetOutcome × S
  unfolding decide reserve_scopes
  check_and_reserve auth limits region projected_mc projected_tokens now s =
      let mc = max_ℤ projected_mc (pos 0) in
      let tokens = max_ℤ projected_tokens (pos 0) in
      let pass = reserve_scopes (scopes auth limits region now) mc tokens s in
      decide mc tokens pass.held pass.held_tokens pass.breaches pass.store
