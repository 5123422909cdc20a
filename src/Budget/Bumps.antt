-- ===== src/Budget/Bumps.antt =====
-- apps/gateway/src/middleware/budget.rs: what a run of `incr_by` on a list of keys does to the
-- counters, one step and many.
use aegis_ai_gateway.Prelude.{
  ℕ, zero, suc, ◌+◌, ◌≤◌, ◌≡◌, arith, refl, ap, ◌∙◌, Bool, true, false, Bool-cases, inl, inr, List,
  [], ◌∷◌, ◌++◌, some, if◌then◌else◌,
}
use aegis_ai_gateway.Int.{
  ℤ, pos, pos_part, neg_part, neg, ◌+ℤ◌, ◌-ℤ◌, eqb_ℤ, +ℤ_parts, -ℤ_parts, neg_parts, eq_of_parts,
  parts_disjoint,
}
use aegis_ai_gateway.Int.I64.{
  InI64, saturating_add_exact, wrapping_neg, wrapping_neg_exact, i64_max,
}
use aegis_ai_gateway.Text.{Text, text_eq}
use aegis_ai_gateway.Text.Equality.{text_eq_iff}
use aegis_ai_gateway.Store.{KvStore}
use aegis_ai_gateway.Store.Counters.{Counters}
use aegis_ai_gateway.Usage.{counter_ttl, bump}
use aegis_ai_gateway.Budget.{bump_all, give_back}

-- What a key holds more once each of `keys` got `p`.
unfoldable pub amount_at : Text → List Text → ℕ → ℕ
amount_at j [] p = 0
amount_at j (key ∷ keys) p = (if text_eq key j then p else 0) + amount_at j keys p

pub amount_at_zero : (j : Text) (keys : List Text) → amount_at j keys 0 ≡ 0
unfolding amount_at
amount_at_zero j [] = refl
amount_at_zero j (key ∷ keys) = ground (arith, amount_at_zero j keys)

pub amount_at_one : (j key : Text) (p : ℕ) → amount_at j (key ∷ []) p ≤ p
unfolding amount_at
amount_at_one j key p = elim (Bool-cases (text_eq key j)) [
  | inl e ↦ rw e (omega arith)
  | inr e ↦ rw e (omega arith)
]

pub amount_at-append :
    (j : Text) (xs ys : List Text) (p : ℕ)
    → amount_at j (xs ++ ys) p ≡ amount_at j xs p + amount_at j ys p
unfolding amount_at
amount_at-append j [] ys p = omega arith
amount_at-append j (x ∷ xs) ys p = omega (arith, amount_at-append j xs ys p)

pub ruleset bump_laws = (arith, +ℤ_parts, -ℤ_parts, neg_parts, eq_of_parts, parts_disjoint)

-- Adding nothing changes nothing.
pub add_zero : (a : ℤ) → a +ℤ pos 0 ≡ a
add_zero a = omega bump_laws

module _ {S : Type 0} ⦃k : KvStore S⦄ (c : Counters S) where
  pub bump-IsUp : (by : ℤ) (key : Text) (s : S) → c.IsUp s → c.IsUp (bump by key s)
  unfolding bump
  bump-IsUp by key s u = c.incr_up key by counter_ttl s u

  pub bump_counter :
      (by : ℤ) (key j : Text) (s : S)
      → c.IsUp s
      → InI64 (c.counter key s +ℤ by)
      → c.counter j (bump by key s)
        ≡ (if text_eq key j then c.counter key s +ℤ by else c.counter j s)
  unfolding bump
  bump_counter by key j s u fits =
      rw (c.incr_counter key j by counter_ttl s u (omega arith) (omega arith))
        (rw (saturating_add_exact (c.counter key s) by fits) refl)

  pub bump_all-IsUp : (by : ℤ) (keys : List Text) (s : S) → c.IsUp s → c.IsUp (bump_all by keys s)
  unfolding bump_all
  bump_all-IsUp by [] s u = u
  bump_all-IsUp by (key ∷ keys) s u = bump_all-IsUp by keys (bump by key s) (bump-IsUp by key s u)

  pub at_key : (a : Text → S → ℤ) (key j : Text) (s : S) → text_eq key j ≡ true → a key s ≡ a j s
  at_key a key j s e = ap (λ i. a i s) ((text_eq_iff key j).0 e)

  -- One step down, as a difference at a key where it stays in range.
  bump_down :
      (key : Text) (p : ℕ) (s : S) (j : Text)
      → c.IsUp s
      → InI64 (c.counter j s -ℤ pos (if text_eq key j then p else 0))
      → c.counter j (bump (neg (pos p)) key s)
        ≡ c.counter j s -ℤ pos (if text_eq key j then p else 0)
  unfolding bump
  bump_down key p s j u fits =
      rw (c.incr_counter key j (neg (pos p)) counter_ttl s u (omega arith) (omega arith))
        (elim (Bool-cases (text_eq key j)) [
          | inl e ↦
              let fits' : InI64 (c.counter j s -ℤ pos p) = rw e at fits in
              let gone : InI64 (c.counter j s +ℤ neg (pos p)) = omega (bump_laws, fits') in
              rw (e, at_key c.counter key j s e)
                (saturating_add_exact (c.counter j s) (neg (pos p)) gone ∙ omega bump_laws)
          | inr e ↦ rw e (omega bump_laws)
        ])

  -- Taking `p` off each key takes off a counter what its keys had got.
  pub bump_all_down :
      (keys : List Text) (p : ℕ) (s : S) (j : Text)
      → c.IsUp s
      → InI64 (c.counter j s -ℤ pos (amount_at j keys p))
      → c.counter j (bump_all (neg (pos p)) keys s) ≡ c.counter j s -ℤ pos (amount_at j keys p)
  unfolding bump_all amount_at
  bump_all_down [] p s j u fits = omega bump_laws
  bump_all_down (key ∷ keys) p s j u fits =
      let range = c.counter_in_range j s u in
      let then_one = bump_down key p s j u (omega (bump_laws, fits)) in
      let rest =
        bump_all_down keys p (bump (neg (pos p)) key s) j (bump-IsUp (neg (pos p)) key s u)
          (rw then_one (omega (bump_laws, fits))) in
      rw (rest, then_one) (omega bump_laws)

  -- The same for a return of an amount that may be zero.
  pub give_back_down :
      (keys : List Text) (p : ℕ) (s : S) (j : Text)
      → c.IsUp s
      → p ≤ i64_max
      → InI64 (c.counter j s -ℤ pos (amount_at j keys p))
      → c.counter j (give_back (pos p) keys s) ≡ c.counter j s -ℤ pos (amount_at j keys p)
  unfolding give_back
  give_back_down keys zero s j u small fits = rw (amount_at_zero j keys) (omega bump_laws)
  give_back_down keys (suc p) s j u small fits =
      let nonzero : eqb_ℤ (pos (suc p)) (pos 0) ≡ false = ground arith in
      rw nonzero (
        rw (wrapping_neg_exact (pos (suc p)) (omega arith) (omega arith))
          (bump_all_down keys (suc p) s j u fits))

  pub give_back-IsUp : (a : ℤ) (keys : List Text) (s : S) → c.IsUp s → c.IsUp (give_back a keys s)
  unfolding give_back
  give_back-IsUp a keys s u = elim (Bool-cases (eqb_ℤ a (pos 0))) [
    | inl e ↦ rw e u
    | inr e ↦ rw e (bump_all-IsUp (wrapping_neg a) keys s u)
  ]
