-- ===== src/Budget/Reserve.antt =====
-- apps/gateway/src/middleware/budget.rs: what `check_and_reserve` guarantees.
use mathlib.Core.List.{Memᴰ}
use aegis_ai_gateway.Prelude.{◌+◌, ◌^◌, ◌≤◌, ◌≡◌, ◌⊎◌, arith, refl, true, Option, some, List}
use aegis_ai_gateway.Int.{ℤ, pos, pos_part, ◌+ℤ◌, ◌≤ℤ◌, ◌<ℤ◌}
use aegis_ai_gateway.Text.{Text}
use aegis_ai_gateway.Store.{KvStore}
use aegis_ai_gateway.Store.Counters.{Counters}
use aegis_ai_gateway.Usage.{Month}
use aegis_ai_gateway.Auth.{AuthContext}
use aegis_ai_gateway.Limits.{BudgetLimits}
use aegis_ai_gateway.Budget.{
  Scope, scopes, Pass, Reservation, BudgetDecision, allowed, denied, reserve_scopes, decide,
  give_back, release, check_and_reserve,
}
use aegis_ai_gateway.Budget.Bumps.{amount_at}
use aegis_ai_gateway.Budget.Passes.{Room, demand}
use aegis_ai_gateway.Budget.Held.{reserve_scopes-IsUp, reserve_scopes_counts}
use aegis_ai_gateway.Budget.Within.{reserve_scopes_within}
use aegis_ai_gateway.Budget.Undo.{
  demand-scopes, at_least_zero, decide_denied, decide_allowed, decide_keys, decide_tokens,
  decide-IsUp, undone,
}

module _ {S : Type 0} ⦃k : KvStore S⦄ (c : Counters S) where
  module _ (auth : AuthContext) (limits : BudgetLimits) (region : Option Text) (now : Month)
      (mc tokens : ℤ) (s : S) (up : c.IsUp s) (small_mc : pos_part mc ≤ 2 ^ 58)
      (small_tokens : pos_part tokens ≤ 2 ^ 58)
      (small_counters : (j : Text) → pos_part (c.counter j s) ≤ 2 ^ 62) where
    abbrev pub all : List Scope
    all = scopes auth limits region now

    pub enough-Room : Room c (demand (pos_part mc + pos_part tokens) all) s
    enough-Room j = omega (
      arith,
      small_counters j,
      small_mc,
      small_tokens,
      demand-scopes (pos_part mc + pos_part tokens) auth limits region now,
    )

    restored :
        (j : Text)
        → c.counter j (
            give_back
              (pos (pos_part tokens))
              (reserve_scopes all (pos (pos_part mc)) (pos (pos_part tokens)) s).held_tokens
              (give_back
                (pos (pos_part mc))
                (reserve_scopes all (pos (pos_part mc)) (pos (pos_part tokens)) s).held
                (reserve_scopes all (pos (pos_part mc)) (pos (pos_part tokens)) s).store))
          ≡ c.counter j s
    restored =
        undone c all (pos_part mc) (pos_part tokens) s up (omega (arith, small_mc))
          (omega (arith, small_tokens)) enough-Room

    -- The pass, at the projections that are not negative.
    abbrev pub pass : Pass S
    pass = reserve_scopes all (pos (pos_part mc)) (pos (pos_part tokens)) s

    reserved_as :
        check_and_reserve auth limits region mc tokens now s
        ≡ decide
            (pos (pos_part mc))
            (pos (pos_part tokens))
            pass.held
            pass.held_tokens
            pass.breaches
            pass.store
    unfolding check_and_reserve
    reserved_as = rw (at_least_zero mc, at_least_zero tokens) refl

    -- While the store answers and no counter comes near the bounds of an `i64`, a refused request
    -- leaves every counter of the store as it found it.
    pub refusal_keeps_counters :
        (breaches : List BudgetDecision)
        → (check_and_reserve auth limits region mc tokens now s).0 ≡ denied breaches
        → (j : Text)
        → c.counter j (check_and_reserve auth limits region mc tokens now s).1 ≡ c.counter j s
    refusal_keeps_counters breaches refused j =
        let refused' = rw reserved_as at refused in
        rw reserved_as (
          rw
            (decide_denied (pos (pos_part mc)) (pos (pos_part tokens)) pass.held pass.held_tokens
              pass.breaches breaches pass.store refused')
            (restored j))

    -- While the store answers and no counter is near the bounds of i64, a request that was let
    -- through and then released leaves every counter as it found it.
    pub release_keeps_counters :
        (r : Reservation)
        → (check_and_reserve auth limits region mc tokens now s).0 ≡ allowed r
        → (j : Text)
        → c.counter j (release r (check_and_reserve auth limits region mc tokens now s).1)
          ≡ c.counter j s
    release_keeps_counters r granted j =
        let granted' = rw reserved_as at granted in
        let ended =
          decide_allowed (pos (pos_part mc)) (pos (pos_part tokens)) pass.held pass.held_tokens
            pass.breaches pass.store r granted' in
        rw reserved_as (rw ended.1 (rw ended.2 (restored j)))

    -- While the store answers and no counter is near the bounds of i64, a request is let through
    -- only if each hard limit of its scopes had not been reached and holds the projected cost on
    -- top of what was spent.
    pub allowed_within_limits :
        (r : Reservation) (scope : Scope) (l : ℤ)
        → (check_and_reserve auth limits region mc tokens now s).0 ≡ allowed r
        → Memᴰ scope (scopes auth limits region now)
        → scope.hard ≡ true
        → scope.limit ≡ some l
        → (c.counter scope.key s +ℤ pos (pos_part mc) ≤ℤ l) × (c.counter scope.key s <ℤ l)
    allowed_within_limits r scope l granted m hard limited =
        let granted' = rw reserved_as at granted in
        let ended =
          decide_allowed (pos (pos_part mc)) (pos (pos_part tokens)) pass.held pass.held_tokens
            pass.breaches pass.store r granted' in
        reserve_scopes_within c all scope l (pos_part mc) (pos_part tokens) s up enough-Room m hard
          limited ended.0

    -- While the store answers and no counter is near the bounds of i64, a reservation moves each
    -- counter up by its amount for each of its keys, and by its tokens for each of its token keys.
    pub allowed_counts :
        (r : Reservation)
        → (check_and_reserve auth limits region mc tokens now s).0 ≡ allowed r
        → (j : Text)
        → c.counter j (check_and_reserve auth limits region mc tokens now s).1
          ≡ c.counter j s
            +ℤ pos (amount_at j r.keys (pos_part mc) + amount_at j r.token_keys (pos_part tokens))
    allowed_counts r granted j =
        let granted' = rw reserved_as at granted in
        let ended =
          decide_allowed (pos (pos_part mc)) (pos (pos_part tokens)) pass.held pass.held_tokens
            pass.breaches pass.store r granted' in
        let keys =
          decide_keys (pos (pos_part mc)) (pos (pos_part tokens)) pass.held pass.held_tokens
            pass.breaches pass.store r granted' in
        rw reserved_as (
          rw ended.1 (
            rw⁻¹ (keys.0, keys.1)
              (reserve_scopes_counts c all (pos_part mc) (pos_part tokens) s up enough-Room j)))

    pub granted_keys :
        (r : Reservation)
        → (check_and_reserve auth limits region mc tokens now s).0 ≡ allowed r
        → (pass.held ≡ r.keys)
          × (pass.held_tokens ≡ r.token_keys)
          × (pos (pos_part mc) ≡ r.amount_mc)
    granted_keys r granted =
        decide_keys (pos (pos_part mc)) (pos (pos_part tokens)) pass.held pass.held_tokens
          pass.breaches pass.store r (rw reserved_as at granted)

    pub granted_tokens :
        (r : Reservation)
        → (check_and_reserve auth limits region mc tokens now s).0 ≡ allowed r
        → (r.reserved_tokens ≡ pos 0) ⊎ (r.reserved_tokens ≡ pos (pos_part tokens))
    granted_tokens r granted =
        decide_tokens (pos (pos_part mc)) (pos (pos_part tokens)) pass.held pass.held_tokens
          pass.breaches pass.store r (rw reserved_as at granted)

    pub check_and_reserve-IsUp : c.IsUp (check_and_reserve auth limits region mc tokens now s).1
    check_and_reserve-IsUp = rw reserved_as (
        decide-IsUp c (pos (pos_part mc)) (pos (pos_part tokens)) pass.held pass.held_tokens
          pass.breaches pass.store
          (reserve_scopes-IsUp c all (pos_part mc) (pos_part tokens) s up enough-Room))
