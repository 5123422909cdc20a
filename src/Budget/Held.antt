-- ===== src/Budget/Held.antt =====
-- apps/gateway/src/middleware/budget.rs: what the loop of `check_and_reserve` holds, and what that
-- adds to the counters, while the store answers.
use aegis_ai_gateway.Prelude.{ℕ, ◌+◌, ◌≡◌, arith, List, [], ◌∷◌}
use aegis_ai_gateway.Int.{pos, ◌+ℤ◌}
use aegis_ai_gateway.Text.{Text}
use aegis_ai_gateway.Store.{KvStore}
use aegis_ai_gateway.Store.Counters.{Counters}
use aegis_ai_gateway.Budget.{Scope, reserve_scopes}
use aegis_ai_gateway.Budget.Bumps.{amount_at, amount_at-append, bump_laws}
use aegis_ai_gateway.Budget.Passes.{
  Room, demand, reserve_scopes_cons, after_scope, after_scope-IsUp, after_scope_counts,
  after_scope-Room,
}

module _ {S : Type 0} ⦃k : KvStore S⦄ (c : Counters S) where
  pub reserve_scopes-IsUp :
      (scopes : List Scope) (p q : ℕ) (s : S)
      → c.IsUp s
      → Room c (demand (p + q) scopes) s
      → c.IsUp (reserve_scopes scopes (pos p) (pos q) s).store
  unfolding demand reserve_scopes
  reserve_scopes-IsUp [] p q s u room = u
  reserve_scopes-IsUp (scope ∷ rest) p q s u room =
      let room_p : Room c p s = λ i. omega (arith, room i) in
      let room_pq : Room c (p + q) s = λ i. omega (arith, room i) in
      rw (reserve_scopes_cons c scope rest p q s u room_p) (
        reserve_scopes-IsUp rest p q (after_scope c scope p q s).store
          (after_scope-IsUp c scope p q s u room_pq)
          (after_scope-Room c scope p q (demand (p + q) rest) s u room))

  pub reserve_scopes_counts :
      (scopes : List Scope) (p q : ℕ) (s : S)
      → c.IsUp s
      → Room c (demand (p + q) scopes) s
      → (j : Text)
      → c.counter j (reserve_scopes scopes (pos p) (pos q) s).store
        ≡ c.counter j s
          +ℤ pos (
              amount_at j (reserve_scopes scopes (pos p) (pos q) s).held p
              + amount_at j (reserve_scopes scopes (pos p) (pos q) s).held_tokens q)
  unfolding demand reserve_scopes amount_at
  reserve_scopes_counts [] p q s u room j = omega bump_laws
  reserve_scopes_counts (scope ∷ rest) p q s u room j =
      let room_p : Room c p s = λ i. omega (arith, room i) in
      let room_pq : Room c (p + q) s = λ i. omega (arith, room i) in
      let later =
        reserve_scopes_counts rest p q (after_scope c scope p q s).store
          (after_scope-IsUp c scope p q s u room_pq)
          (after_scope-Room c scope p q (demand (p + q) rest) s u room) j in
      rw (reserve_scopes_cons c scope rest p q s u room_p) (
        rw (later, after_scope_counts c scope p q s u room_pq j)
          (omega (bump_laws, amount_at-append)))
