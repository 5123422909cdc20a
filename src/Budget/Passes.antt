-- ===== src/Budget/Passes.antt =====
-- apps/gateway/src/middleware/budget.rs: the loop of `check_and_reserve` over the scopes, while the
-- store answers and the counters have room for what is added.
use aegis_ai_gateway.Prelude.{
  ℕ, ◌+◌, ◌≤◌, ◌≡◌, arith, refl, Bool-cases, Option, none, some, inl, inr, List, [], ◌∷◌, ◌++◌,
  if◌then◌else◌,
}
use aegis_ai_gateway.Int.{ℤ, pos, pos_part, ◌+ℤ◌}
use aegis_ai_gateway.Int.I64.{saturating_add, saturating_add_exact, i64_max}
use aegis_ai_gateway.Text.{Text, text_eq}
use aegis_ai_gateway.Store.{KvStore}
use aegis_ai_gateway.Store.Counters.{Counters}
use aegis_ai_gateway.Usage.{counter_ttl, bump}
use aegis_ai_gateway.Budget.{
  Scope, Pass, reserve_tokens, hold_tokens, reserve_scopes, money_breach, token_breach,
}
use aegis_ai_gateway.Budget.Bumps.{
  amount_at, amount_at_one, bump_laws, bump-IsUp, bump_counter, at_key,
}

-- `u` for each scope: the most that a pass adds to one counter.
unfoldable pub demand : ℕ → List Scope → ℕ
demand u [] = 0
demand u (scope ∷ rest) = u + demand u rest

module _ {S : Type 0} ⦃k : KvStore S⦄ (c : Counters S) where
  -- Every counter can take `n` more.
  abbrev pub Room : ℕ → S → Type 0
  Room n s = (j : Text) → pos_part (c.counter j s) + n ≤ i64_max

  -- One step up, as a sum at every key.
  pub bump_up_by :
      (key : Text) (p : ℕ) (s : S)
      → c.IsUp s
      → Room p s
      → (j : Text)
      → c.counter j (bump (pos p) key s) ≡ c.counter j s +ℤ pos (if text_eq key j then p else 0)
  bump_up_by key p s u room j =
      let range = c.counter_in_range key s u in
      rw (bump_counter c (pos p) key j s u (omega (bump_laws, room key)))
        (elim (Bool-cases (text_eq key j)) [
          | inl e ↦ rw (e, at_key c c.counter key j s e) refl
          | inr e ↦ rw e (omega bump_laws)
        ])

  abbrev pub total_after : Text → ℕ → S → ℤ
  total_after key p s = c.counter key s +ℤ pos p

  total_exact :
      (key : Text) (p : ℕ) (s : S)
      → c.IsUp s
      → Room p s
      → saturating_add (c.counter key s) (pos p) ≡ total_after key p s
  total_exact key p s u room =
      let range = c.counter_in_range key s u in
      saturating_add_exact (c.counter key s) (pos p) (omega (bump_laws, room key))

  -- The token half of a scope.
  pub hold_tokens-some :
      (scope : Scope) (key : Text) (q : ℕ) (s : S)
      → c.IsUp s
      → Room q s
      → hold_tokens scope (some key) (pos q) s ≡ record {
        held = [];
        held_tokens = key ∷ [];
        breaches = token_breach scope (total_after key q s) (pos q);
        store = bump (pos q) key s;
      }
  unfolding bump hold_tokens
  hold_tokens-some scope key q s u room =
      rw (hold_tokens, c.incr_total key (pos q) counter_ttl s u (omega arith) (omega arith))
        (rw (total_exact key q s u room) refl)

  -- One round of the loop.
  pub reserve_scopes_cons :
      (scope : Scope) (rest : List Scope) (p q : ℕ) (s : S)
      → c.IsUp s
      → Room p s
      → reserve_scopes (scope ∷ rest) (pos p) (pos q) s ≡ (
          let here = reserve_tokens scope (pos q) (bump (pos p) scope.key s) in
          let later = reserve_scopes rest (pos p) (pos q) here.store in
          let result : Pass S = record {
            held = scope.key ∷ later.held;
            held_tokens = here.held_tokens ++ later.held_tokens;
            breaches =
                money_breach scope (total_after scope.key p s) (pos p)
                ++ here.breaches
                ++ later.breaches;
            store = later.store;
          } in
          result)
  unfolding reserve_scopes bump
  reserve_scopes_cons scope rest p q s u room =
      rw
        (reserve_scopes, c.incr_total scope.key (pos p) counter_ttl s u (omega arith) (omega arith))
        (rw (total_exact scope.key p s u room) refl)

  pub hold_tokens-IsUp :
      (scope : Scope) (o : Option Text) (q : ℕ) (s : S)
      → c.IsUp s
      → Room q s
      → c.IsUp (hold_tokens scope o (pos q) s).store
  unfolding hold_tokens
  hold_tokens-IsUp scope none q s u room = u
  hold_tokens-IsUp scope (some key) q s u room =
      rw (hold_tokens-some scope key q s u room) (bump-IsUp c (pos q) key s u)

  pub hold_tokens_counts :
      (scope : Scope) (o : Option Text) (q : ℕ) (s : S)
      → c.IsUp s
      → Room q s
      → (j : Text)
      → c.counter j (hold_tokens scope o (pos q) s).store
        ≡ c.counter j s +ℤ pos (amount_at j (hold_tokens scope o (pos q) s).held_tokens q)
  unfolding hold_tokens amount_at
  hold_tokens_counts scope none q s u room j = omega bump_laws
  hold_tokens_counts scope (some key) q s u room j =
      rw (hold_tokens-some scope key q s u room)
        (rw (bump_up_by key q s u room j) (omega bump_laws))

  pub hold_tokens_small :
      (scope : Scope) (o : Option Text) (q : ℕ) (s : S)
      → c.IsUp s
      → Room q s
      → (j : Text) → amount_at j (hold_tokens scope o (pos q) s).held_tokens q ≤ q
  unfolding hold_tokens amount_at
  hold_tokens_small scope none q s u room j = omega arith
  hold_tokens_small scope (some key) q s u room j =
      rw (hold_tokens-some scope key q s u room) (ground arith)

  -- The state in which the next round starts.
  abbrev pub after_scope : Scope → ℕ → ℕ → S → Pass S
  after_scope scope p q s = reserve_tokens scope (pos q) (bump (pos p) scope.key s)

  pub bumped-Room :
      (key : Text) (p n : ℕ) (s : S) → c.IsUp s → Room (p + n) s → Room n (bump (pos p) key s)
  bumped-Room key p n s u room j =
      let room_p : Room p s = λ i. omega (arith, room i) in
      rw (bump_up_by key p s u room_p j) (elim (Bool-cases (text_eq key j)) [
        | inl e ↦ rw e (omega (bump_laws, room j))
        | inr e ↦ rw e (omega (bump_laws, room j))
      ])

  pub after_scope-IsUp :
      (scope : Scope) (p q : ℕ) (s : S)
      → c.IsUp s
      → Room (p + q) s
      → c.IsUp (after_scope scope p q s).store
  unfolding reserve_tokens
  after_scope-IsUp scope p q s u room =
      hold_tokens-IsUp scope scope.token_key q (bump (pos p) scope.key s)
        (bump-IsUp c (pos p) scope.key s u) (bumped-Room scope.key p q s u room)

  -- What one scope adds to each counter.
  pub after_scope_counts :
      (scope : Scope) (p q : ℕ) (s : S)
      → c.IsUp s
      → Room (p + q) s
      → (j : Text)
      → c.counter j (after_scope scope p q s).store
        ≡ c.counter j s
          +ℤ pos
              (amount_at j (scope.key ∷ []) p + amount_at j (after_scope scope p q s).held_tokens q)
  unfolding reserve_tokens
  after_scope_counts scope p q s u room j =
      let room_p : Room p s = λ i. omega (arith, room i) in
      let bumped = bumped-Room scope.key p q s u room in
      rw
        (
          hold_tokens_counts scope scope.token_key q (bump (pos p) scope.key s)
              (bump-IsUp c (pos p) scope.key s u) bumped j,
          bump_up_by scope.key p s u room_p j,
        )
        (unfold amount_at in omega bump_laws)

  pub after_scope-Room :
      (scope : Scope) (p q n : ℕ) (s : S)
      → c.IsUp s
      → Room (p + q + n) s
      → Room n (after_scope scope p q s).store
  unfolding reserve_tokens
  after_scope-Room scope p q n s u room j =
      let room_pq : Room (p + q) s = λ i. omega (arith, room i) in
      let small : amount_at j (after_scope scope p q s).held_tokens q ≤ q =
        hold_tokens_small scope scope.token_key q (bump (pos p) scope.key s)
          (bump-IsUp c (pos p) scope.key s u) (bumped-Room scope.key p q s u room_pq) j in
      rw (after_scope_counts scope p q s u room_pq j)
        (omega (bump_laws, room j, amount_at_one j scope.key p, small))
