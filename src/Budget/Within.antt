-- ===== src/Budget/Within.antt =====
-- apps/gateway/src/middleware/budget.rs: a pass of the loop of `check_and_reserve` that finds no breach
-- stays within every hard limit.
use mathlib.Core.List.{Memᴰ}
use mathlib.Core.List.Memᴰ.{head, tail}
use aegis_ai_gateway.Prelude.{
  ℕ, ◌+◌, ◌≤◌, ◌≡◌, arith, refl, ap, true, false, Bool-cases, some, inl, inr, List, [], ◌∷◌, ◌++◌,
}
use aegis_ai_gateway.Int.{ℤ, pos, pos_part, neg_part, ◌+ℤ◌, ◌-ℤ◌, ◌≤ℤ◌, ◌<ℤ◌}
use aegis_ai_gateway.Int.I64.{InI64, i64_max, wrapping_sub, wrapping_sub_exact}
use aegis_ai_gateway.Store.{KvStore}
use aegis_ai_gateway.Store.Counters.{Counters}
use aegis_ai_gateway.Budget.{Scope, reserve_scopes, money_breach, is_over}
use aegis_ai_gateway.Budget.Bumps.{bump_laws}
use aegis_ai_gateway.Budget.Passes.{
  Room, demand, reserve_scopes_cons, after_scope, after_scope-IsUp, after_scope_counts,
  after_scope-Room,
}

both_empty {ℓ} : {A : Type ℓ} (xs ys : List A) → xs ++ ys ≡ [] → (xs ≡ []) × (ys ≡ [])
both_empty [] ys h = (refl, h)
both_empty (x ∷ xs) ys h = cc

-- The total of a counter that had room, less what was added.
committed_exact :
    (a : ℤ) (p : ℕ) → InI64 a → pos_part a + p ≤ i64_max → wrapping_sub (a +ℤ pos p) (pos p) ≡ a
committed_exact a p h room =
    let e : (a +ℤ pos p) -ℤ pos p ≡ a = omega bump_laws in
    rw (wrapping_sub_exact (a +ℤ pos p) (pos p) (rw e h)) e

not_over :
    (a l : ℤ) (p : ℕ)
    → InI64 a
    → pos_part a + p ≤ i64_max
    → is_over (a +ℤ pos p) (pos p) l ≡ false
    → (a +ℤ pos p ≤ℤ l) × (a <ℤ l)
unfolding is_over
not_over a l p h room e = ground (arith, committed_exact a p h room)

-- A hard scope without a breach has room for the projection, and was below its limit.
no_breach :
    (scope : Scope) (a l : ℤ) (p : ℕ)
    → InI64 a
    → pos_part a + p ≤ i64_max
    → scope.hard ≡ true
    → scope.limit ≡ some l
    → money_breach scope (a +ℤ pos p) (pos p) ≡ []
    → (a +ℤ pos p ≤ℤ l) × (a <ℤ l)
unfolding money_breach
no_breach scope a l p h room hard limited e =
    let e' = rw (limited, hard) at e in
    elim (Bool-cases (is_over (a +ℤ pos p) (pos p) l)) [
      | inl over ↦ let clash = rw over at e' in cc
      | inr under ↦ not_over a l p h room under
    ]

module _ {S : Type 0} ⦃k : KvStore S⦄ (c : Counters S) where
  -- A pass without a breach has none at its first scope and none later.
  no_breaches_cons :
      (first : Scope) (rest : List Scope) (p q : ℕ) (s : S)
      → c.IsUp s
      → Room c p s
      → (reserve_scopes (first ∷ rest) (pos p) (pos q) s).breaches ≡ []
      → (money_breach first (c.counter first.key s +ℤ pos p) (pos p) ≡ [])
        × ((reserve_scopes rest (pos p) (pos q) (after_scope c first p q s).store).breaches ≡ [])
  no_breaches_cons first rest p q s u room_p e =
      let all_empty = rw (reserve_scopes_cons c first rest p q s u room_p) at e in
      let here = after_scope c first p q s in
      let later = reserve_scopes rest (pos p) (pos q) here.store in
      let money = money_breach first (c.counter first.key s +ℤ pos p) (pos p) in
      let split = both_empty (money ++ here.breaches) later.breaches all_empty in
      ((both_empty money here.breaches split.0).0, split.1)

  pub reserve_scopes_within :
      (scopes : List Scope) (scope : Scope) (l : ℤ) (p q : ℕ) (s : S)
      → c.IsUp s
      → Room c (demand (p + q) scopes) s
      → Memᴰ scope scopes
      → scope.hard ≡ true
      → scope.limit ≡ some l
      → (reserve_scopes scopes (pos p) (pos q) s).breaches ≡ []
      → (c.counter scope.key s +ℤ pos p ≤ℤ l) × (c.counter scope.key s <ℤ l)
  unfolding demand reserve_scopes
  reserve_scopes_within [] scope l p q s u room m hard limited e = elim m [ ]
  reserve_scopes_within (first ∷ rest) scope l p q s u room (head same) hard limited e =
      let room_p : Room c p s = λ i. omega (arith, room i) in
      let here = (no_breaches_cons first rest p q s u room_p e).0 in
      no_breach scope (c.counter scope.key s) l p (c.counter_in_range scope.key s u)
        (room_p scope.key) hard limited (rw same here)
  reserve_scopes_within (first ∷ rest) scope l p q s u room (tail m) hard limited e =
      let room_p : Room c p s = λ i. omega (arith, room i) in
      let room_pq : Room c (p + q) s = λ i. omega (arith, room i) in
      let here = after_scope c first p q s in
      let later =
        reserve_scopes_within rest scope l p q here.store (after_scope-IsUp c first p q s u room_pq)
          (after_scope-Room c first p q (demand (p + q) rest) s u room) m hard limited
          (no_breaches_cons first rest p q s u room_p e).1 in
      let moved = after_scope_counts c first p q s u room_pq scope.key in
      omega (bump_laws, ap pos_part moved, ap neg_part moved, later)
