-- ===== src/Budget/OneKey.antt =====
-- apps/gateway/src/middleware/budget.rs: a request's scopes hold the spend counter of its organisation
-- once, and no token counter is that counter.
use aegis_ai_gateway.Prelude.{
  ℕ, ◌+◌, ◌≡◌, arith, refl, false, Option, none, some, List, [], ◌∷◌, ◌++◌, if◌then◌else◌, String,
}
use aegis_ai_gateway.Int.{ℤ, pos}
use aegis_ai_gateway.Text.{Text, text_eq}
use aegis_ai_gateway.Text.Equality.{text_eq_refl}
use aegis_ai_gateway.Store.{KvStore}
use aegis_ai_gateway.Store.Counters.{Counters}
use aegis_ai_gateway.Usage.{
  Month, org_spend_key, org_tokens_key, key_spend_key, team_spend_key, user_spend_key,
  org_region_spend_key, team_tokens_key, user_tokens_key, bump,
}
use aegis_ai_gateway.Usage.Counted.{
  user_apart, team_apart, key_apart, region_apart, tokens_apart, team_tokens_apart,
  user_tokens_apart,
}
use aegis_ai_gateway.Auth.{AuthContext}
use aegis_ai_gateway.Limits.{BudgetLimits, Limit}
use aegis_ai_gateway.Budget.{
  Scope, scopes, scope_of, push_for, key_limit, key_if_limited, reserve_scopes, reserve_tokens,
  hold_tokens,
}
use aegis_ai_gateway.Budget.Bumps.{amount_at, amount_at-append}
use aegis_ai_gateway.Budget.Passes.{
  Room, demand, reserve_scopes_cons, hold_tokens-some, after_scope, after_scope-IsUp,
  after_scope-Room, bumped-Room,
}
use aegis_ai_gateway.Budget.Bumps.{bump-IsUp}

-- What `j` gains from the spend keys of the scopes, and from their token keys.
unfoldable pub money_at : Text → List Scope → ℕ → ℕ
money_at j [] p = 0
money_at j (scope ∷ rest) p = (if text_eq scope.key j then p else 0) + money_at j rest p

token_at : Text → Option Text → ℕ → ℕ
token_at j none q = 0
token_at j (some key) q = if text_eq key j then q else 0

unfoldable pub tokens_at : Text → List Scope → ℕ → ℕ
unfolding token_at
tokens_at j [] q = 0
tokens_at j (scope ∷ rest) q = token_at j scope.token_key q + tokens_at j rest q

money_at-append :
    (j : Text) (xs ys : List Scope) (p : ℕ)
    → money_at j (xs ++ ys) p ≡ money_at j xs p + money_at j ys p
unfolding money_at
money_at-append j [] ys p = omega arith
money_at-append j (x ∷ xs) ys p = omega (arith, money_at-append j xs ys p)

tokens_at-append :
    (j : Text) (xs ys : List Scope) (q : ℕ)
    → tokens_at j (xs ++ ys) q ≡ tokens_at j xs q + tokens_at j ys q
unfolding tokens_at
tokens_at-append j [] ys q = omega arith
tokens_at-append j (x ∷ xs) ys q = omega (arith, tokens_at-append j xs ys q)

-- A scope of another spend key, with another token key or none.
IsApart : Text → Scope → Type 0
IsApart j scope = (text_eq scope.key j ≡ false) × ((q : ℕ) → token_at j scope.token_key q ≡ 0)

unlimited_apart :
    (j key : Text) (tokens : Option ℤ) (q : ℕ)
    → text_eq key j ≡ false
    → token_at j (key_if_limited key tokens) q ≡ 0
unfolding token_at key_if_limited
unlimited_apart j key none q other = refl
unlimited_apart j key (some t) q other = rw other refl

scope_of-IsApart :
    (j : Text) (name : String) (key : Text) (limit : Option Limit) (token_key : Text)
    (tokens : Option ℤ)
    → text_eq key j ≡ false
    → text_eq token_key j ≡ false
    → IsApart j (scope_of name key limit token_key tokens)
unfolding scope_of IsApart
scope_of-IsApart j name key limit token_key tokens other token_other =
    (other, λ q. unlimited_apart j token_key tokens q token_other)

push_for_apart :
    (j : Text) (o : Option Text) (f : Text → Scope) (p q : ℕ)
    → ((id : Text) → IsApart j (f id))
    → (money_at j (push_for o f) p ≡ 0) × (tokens_at j (push_for o f) q ≡ 0)
unfolding push_for money_at tokens_at IsApart
push_for_apart j none f p q apart = (refl, refl)
push_for_apart j (some id) f p q apart =
    (rw (apart id).0 (omega arith), rw ((apart id).1 q) (omega arith))

org_scope_once :
    (org : Text) (at : Month) (limit : Option Limit) (tokens : Option ℤ) (p q : ℕ)
    → let own =
        scope_of "organization" (org_spend_key org at) limit (org_tokens_key org at) tokens ∷ [] in
      (money_at (org_spend_key org at) own p ≡ p) × (tokens_at (org_spend_key org at) own q ≡ 0)
unfolding money_at tokens_at scope_of
org_scope_once org at limit tokens p q = (
  rw (text_eq_refl (org_spend_key org at)) (omega arith),
  rw (unlimited_apart (org_spend_key org at) (org_tokens_key org at) tokens q (tokens_apart org at))
      (omega arith),
)

no_key_apart : (org : Text) (at : Month) → text_eq [] (org_spend_key org at) ≡ false
unfolding org_spend_key text_eq
no_key_apart org at = refl

pub scopes_once :
    (auth : AuthContext) (limits : BudgetLimits) (region : Option Text) (at : Month) (p q : ℕ)
    → (money_at (org_spend_key auth.org_id at) (scopes auth limits region at) p ≡ p)
      × (tokens_at (org_spend_key auth.org_id at) (scopes auth limits region at) q ≡ 0)
unfolding scopes
scopes_once auth limits region at p q =
    let org = auth.org_id in
    let j = org_spend_key org at in
    let keys = push_for_apart j auth.api_key_id _ p q (λ id.
      scope_of-IsApart j "key" (key_spend_key id at) (key_limit auth.monthly_budget_mc limits.key)
        [] none (key_apart id org at) (no_key_apart org at)) in
    let teams = push_for_apart j auth.team_id _ p q (λ id.
      scope_of-IsApart j "team" (team_spend_key id at) limits.team (team_tokens_key id at)
        limits.team_tokens (team_apart id org at) (team_tokens_apart id org at)) in
    let users = push_for_apart j auth.user_id _ p q (λ id.
      scope_of-IsApart j "user" (user_spend_key id at) limits.user (user_tokens_key id at)
        limits.user_tokens (user_apart id org at) (user_tokens_apart id org at)) in
    let regions = push_for_apart j region _ p q (λ r.
      scope_of-IsApart j "region" (org_region_spend_key org r at) limits.region [] none
        (region_apart r org at) (no_key_apart org at)) in
    let own = org_scope_once org at limits.org limits.org_tokens p q in
    omega (arith, money_at-append, tokens_at-append, keys, teams, users, regions, own)

module _ {S : Type 0} ⦃k : KvStore S⦄ (c : Counters S) where
  pub held-money_at :
      (all : List Scope) (p q : ℕ) (s : S) (j : Text)
      → c.IsUp s
      → Room c (demand (p + q) all) s
      → amount_at j (reserve_scopes all (pos p) (pos q) s).held p ≡ money_at j all p
  unfolding demand reserve_scopes amount_at money_at
  held-money_at [] p q s j u room = refl
  held-money_at (scope ∷ rest) p q s j u room =
      let room_p : Room c p s = λ i. omega (arith, room i) in
      let room_pq : Room c (p + q) s = λ i. omega (arith, room i) in
      let later =
        held-money_at rest p q (after_scope c scope p q s).store j
          (after_scope-IsUp c scope p q s u room_pq)
          (after_scope-Room c scope p q (demand (p + q) rest) s u room) in
      rw (reserve_scopes_cons c scope rest p q s u room_p) (rw later refl)

  tokens_of_scope :
      (scope : Scope) (o : Option Text) (q : ℕ) (s : S) (j : Text)
      → c.IsUp s
      → Room c q s
      → amount_at j (hold_tokens scope o (pos q) s).held_tokens q ≡ token_at j o q
  unfolding hold_tokens amount_at token_at
  tokens_of_scope scope none q s j u room = refl
  tokens_of_scope scope (some key) q s j u room =
      rw (hold_tokens-some c scope key q s u room) (omega arith)

  pub held-tokens_at :
      (all : List Scope) (p q : ℕ) (s : S) (j : Text)
      → c.IsUp s
      → Room c (demand (p + q) all) s
      → amount_at j (reserve_scopes all (pos p) (pos q) s).held_tokens q ≡ tokens_at j all q
  unfolding demand reserve_scopes amount_at tokens_at reserve_tokens
  held-tokens_at [] p q s j u room = refl
  held-tokens_at (scope ∷ rest) p q s j u room =
      let room_p : Room c p s = λ i. omega (arith, room i) in
      let room_pq : Room c (p + q) s = λ i. omega (arith, room i) in
      let later =
        held-tokens_at rest p q (after_scope c scope p q s).store j
          (after_scope-IsUp c scope p q s u room_pq)
          (after_scope-Room c scope p q (demand (p + q) rest) s u room) in
      let here =
        tokens_of_scope scope scope.token_key q (bump (pos p) scope.key s) j
          (bump-IsUp c (pos p) scope.key s u) (bumped-Room c scope.key p q s u room_pq) in
      rw (reserve_scopes_cons c scope rest p q s u room_p)
        (rw (amount_at-append j (after_scope c scope p q s).held_tokens) (rw (here, later) refl))
