-- ===== src/Budget/Undo.antt =====
-- apps/gateway/src/middleware/budget.rs: the end of `check_and_reserve`, and that giving back what a
-- pass held undoes the pass.
use aegis_ai_gateway.Prelude.{
  ℕ, ◌+◌, ◌*◌, ◌≤◌, ◌≡◌, ◌⊎◌, inl, inr, arith, refl, sym, ap, Option, none, some, List, [], ◌∷◌,
  ◌++◌,
}
use aegis_ai_gateway.Int.{ℤ, pos, pos_part, neg_part, ◌-ℤ◌, max_ℤ, max_ℤ_parts}
use aegis_ai_gateway.Int.I64.{InI64, i64_max}
use aegis_ai_gateway.Text.{Text}
use aegis_ai_gateway.Store.{KvStore}
use aegis_ai_gateway.Store.Counters.{Counters}
use aegis_ai_gateway.Usage.{Month}
use aegis_ai_gateway.Auth.{AuthContext}
use aegis_ai_gateway.Limits.{BudgetLimits}
use aegis_ai_gateway.Budget.{
  Scope, scopes, push_for, Reservation, BudgetOutcome, BudgetDecision, allowed, denied,
  reserve_scopes, decide, give_back, release,
}
use aegis_ai_gateway.Budget.Bumps.{amount_at, bump_laws, give_back_down, give_back-IsUp}
use aegis_ai_gateway.Budget.Passes.{Room, demand}
use aegis_ai_gateway.Budget.Held.{reserve_scopes-IsUp, reserve_scopes_counts}

demand-append : (u : ℕ) (xs ys : List Scope) → demand u (xs ++ ys) ≡ demand u xs + demand u ys
unfolding demand
demand-append u [] ys = omega arith
demand-append u (x ∷ xs) ys = omega (arith, demand-append u xs ys)

demand-push_for : (u : ℕ) (o : Option Text) (f : Text → Scope) → demand u (push_for o f) ≤ u
unfolding demand push_for
demand-push_for u none f = omega arith
demand-push_for u (some id) f = omega arith

demand_last : (u : ℕ) (scope : Scope) → demand u (scope ∷ []) ≡ u
unfolding demand
demand_last u scope = omega arith

-- At most five scopes.
pub demand-scopes :
    (u : ℕ) (auth : AuthContext) (limits : BudgetLimits) (region : Option Text) (now : Month)
    → demand u (scopes auth limits region now) ≤ 5 * u
unfolding scopes
demand-scopes u auth limits region now = omega (arith, demand-append, demand-push_for, demand_last)

pub at_least_zero : (a : ℤ) → max_ℤ a (pos 0) ≡ pos (pos_part a)
at_least_zero a = omega (bump_laws, max_ℤ_parts)

granted : Reservation → BudgetOutcome → Reservation
granted r (allowed x) = x
granted r (denied _) = r

module _ {S : Type 0} ⦃k : KvStore S⦄ where
  pub decide_denied :
      (mc tokens : ℤ) (held held_tokens : List Text) (bs ds : List BudgetDecision) (s : S)
      → (decide mc tokens held held_tokens bs s).0 ≡ denied ds
      → (decide mc tokens held held_tokens bs s).1
        ≡ give_back tokens held_tokens (give_back mc held s)
  unfolding decide
  decide_denied mc tokens held held_tokens [] ds s e = cc
  decide_denied mc tokens held held_tokens (b ∷ bs) ds s e = refl

  give_back_none : (a : ℤ) (s : S) → give_back a [] s ≡ s
  unfolding give_back
  give_back_none a s = ground arith

  pub decide_allowed :
      (mc tokens : ℤ) (held held_tokens : List Text) (bs : List BudgetDecision) (s : S)
      (r : Reservation)
      → (decide mc tokens held held_tokens bs s).0 ≡ allowed r
      → (bs ≡ [])
        × ((decide mc tokens held held_tokens bs s).1 ≡ s)
        × (release r s ≡ give_back tokens held_tokens (give_back mc held s))
  unfolding decide release granted
  decide_allowed mc tokens held [] [] s r e = (
    refl,
    refl,
    rw (sym (ap (granted r) e)) (
        rw
          (
            give_back_none tokens (give_back mc held s),
            give_back_none (pos 0) (give_back mc held s),
          )
          refl),
  )
  decide_allowed mc tokens held (x ∷ ht) [] s r e = (refl, refl, rw (sym (ap (granted r) e)) refl)
  decide_allowed mc tokens held held_tokens (b ∷ bs) s r e = cc

  pub decide_keys :
      (mc tokens : ℤ) (held held_tokens : List Text) (bs : List BudgetDecision) (s : S)
      (r : Reservation)
      → (decide mc tokens held held_tokens bs s).0 ≡ allowed r
      → (held ≡ r.keys) × (held_tokens ≡ r.token_keys) × (mc ≡ r.amount_mc)
  unfolding decide granted
  decide_keys mc tokens held held_tokens [] s r e = (
    ap (λ o. (granted r o).keys) e,
    ap (λ o. (granted r o).token_keys) e,
    ap (λ o. (granted r o).amount_mc) e,
  )
  decide_keys mc tokens held held_tokens (b ∷ bs) s r e = cc

  pub decide_tokens :
      (mc tokens : ℤ) (held held_tokens : List Text) (bs : List BudgetDecision) (s : S)
      (r : Reservation)
      → (decide mc tokens held held_tokens bs s).0 ≡ allowed r
      → (r.reserved_tokens ≡ pos 0) ⊎ (r.reserved_tokens ≡ tokens)
  unfolding decide granted
  decide_tokens mc tokens held [] [] s r e = inl (sym (ap (λ o. (granted r o).reserved_tokens) e))
  decide_tokens mc tokens held (x ∷ ht) [] s r e =
      inr (sym (ap (λ o. (granted r o).reserved_tokens) e))
  decide_tokens mc tokens held held_tokens (b ∷ bs) s r e = cc

module _ {S : Type 0} ⦃k : KvStore S⦄ (c : Counters S) where
  pub decide-IsUp :
      (mc tokens : ℤ) (held held_tokens : List Text) (bs : List BudgetDecision) (s : S)
      → c.IsUp s
      → c.IsUp (decide mc tokens held held_tokens bs s).1
  unfolding decide
  decide-IsUp mc tokens held held_tokens [] s u = u
  decide-IsUp mc tokens held held_tokens (b ∷ bs) s u =
      give_back-IsUp c tokens held_tokens (give_back mc held s) (give_back-IsUp c mc held s u)

  -- Giving back what a pass held leaves every counter as the pass found it.
  pub undone :
      (all : List Scope) (p q : ℕ) (s : S)
      → c.IsUp s
      → p ≤ i64_max
      → q ≤ i64_max
      → Room c (demand (p + q) all) s
      → (j : Text)
      → c.counter j (
          give_back (pos q) (reserve_scopes all (pos p) (pos q) s).held_tokens (
            give_back
              (pos p)
              (reserve_scopes all (pos p) (pos q) s).held
              (reserve_scopes all (pos p) (pos q) s).store))
        ≡ c.counter j s
  undone all p q s u small_p small_q room j =
      let pass = reserve_scopes all (pos p) (pos q) s in
      let up = reserve_scopes-IsUp c all p q s u room in
      let counts = reserve_scopes_counts c all p q s u room j in
      let range = c.counter_in_range j s u in
      let money_fits : InI64 (c.counter j pass.store -ℤ pos (amount_at j pass.held p)) = rw counts (
        omega (
          bump_laws,
          range,
          c.counter_in_range j pass.store up,
          ap pos_part counts,
          ap neg_part counts,
        )) in
      let money = give_back_down c pass.held p pass.store j up small_p money_fits in
      let tokens_fit : InI64 (
          c.counter j (give_back (pos p) pass.held pass.store)
          -ℤ pos (amount_at j pass.held_tokens q)) =
        rw money (rw counts (omega (bump_laws, range))) in
      rw
        (give_back_down c pass.held_tokens q (give_back (pos p) pass.held pass.store) j
          (give_back-IsUp c (pos p) pass.held pass.store up) small_q tokens_fit)
        (rw money (rw counts (omega bump_laws)))
