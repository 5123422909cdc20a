-- ===== src/Money/Cost.antt =====
-- The cost of tokens and the sums of amounts (money.rs).
use aegis_ai_gateway.Prelude.{ℕ, ◌+◌, ◌*◌, ◌≤◌, arith}
use aegis_ai_gateway.Int.{
  pos, negsuc, pos_part, neg_part, ◌+ℤ◌, ◌*ℤ◌, ◌≤ℤ◌, +ℤ_parts, *ℤ_pos_parts, parts_disjoint,
}
use aegis_ai_gateway.Int.I64.{i64_max}
use aegis_ai_gateway.Money.{MicroCents, cost_for_tokens}
use aegis_ai_gateway.Money.Rounding.{cost_for_tokens_parts}

-- Where the exact cost fits an `i64`, the cost is the whole micro-cent nearest to the rate times
-- the tokens over a million, for rates of either sign.
pub cost_for_tokens_nearest :
    (r : MicroCents) (t : ℕ)
    → (pos_part r + neg_part r) * t ≤ i64_max * 1_000_000
    → (cost_for_tokens r t *ℤ pos 1_000_000 ≤ℤ r *ℤ pos t +ℤ pos 500_000)
      × (r *ℤ pos t ≤ℤ cost_for_tokens r t *ℤ pos 1_000_000 +ℤ pos 500_000)
cost_for_tokens_nearest r t h =
    let c = cost_for_tokens r t in
    omega (
      arith,
      cost_for_tokens_parts r t,
      *ℤ_pos_parts r t,
      *ℤ_pos_parts c 1_000_000,
      +ℤ_parts,
      parts_disjoint,
    )

-- At a rate that is not negative, more tokens never cost less.
pub cost_for_tokens_mono :
    (r : MicroCents) (t u : ℕ) → pos 0 ≤ℤ r → t ≤ u → cost_for_tokens r t ≤ℤ cost_for_tokens r u
cost_for_tokens_mono (pos n) t u h k =
    let grows : n * t ≤ n * u = grind arith in
    omega (arith, cost_for_tokens_parts (pos n) t, cost_for_tokens_parts (pos n) u)
cost_for_tokens_mono (negsuc n) t u h k = absurd (omega arith)
