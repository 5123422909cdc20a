-- ===== src/Money/Rounding.antt =====
-- What `cost_for_tokens` and `mul_basis_points` of money.rs return, through the parts of the result.
use aegis_ai_gateway.Prelude.{ℕ, ◌+◌, ◌*◌, ◌/◌, ◌<◌, ◌≡◌, arith, min, if◌then◌else◌}
use aegis_ai_gateway.Int.{
  ℤ, pos, negsuc, pos_part, neg_part, ◌+ℤ◌, ◌-ℤ◌, ◌*ℤ◌, tdiv, +ℤ_parts, -ℤ_parts, parts_disjoint,
  *ℤ_pos_parts, tdiv_parts, leb_ℤ,
}
use aegis_ai_gateway.Int.I64.{i64_max, saturate, saturate_parts}
use aegis_ai_gateway.Money.{MicroCents, clamp_i128, cost_for_tokens, mul_basis_points}

clamp-eq-saturate : (a : ℤ) → clamp_i128 a ≡ saturate a
unfolding clamp_i128 saturate
clamp-eq-saturate (pos n) = ground arith
clamp-eq-saturate (negsuc n) = ground arith

-- The rounding that both routines write out.
abbrev round_half : ℤ → ℕ → ℕ → ℤ
round_half x half d = if leb_ℤ (pos 0) x then tdiv (x +ℤ pos half) d else tdiv (x -ℤ pos half) d

div_below : (half d : ℕ) → half < d → (0 + half) / d ≡ 0
div_below half d h = grind arith

round_half_parts :
    (x : ℤ) (half d : ℕ)
    → half < d
    → (pos_part (round_half x half d) ≡ (pos_part x + half) / d)
      × (neg_part (round_half x half d) ≡ (neg_part x + half) / d)
round_half_parts (pos n) half d h =
    let z = pos n +ℤ pos half in
    ground
      (arith, tdiv_parts z d, +ℤ_parts (pos n) (pos half), parts_disjoint z, div_below half d h)
round_half_parts (negsuc n) half d h =
    let z = negsuc n -ℤ pos half in
    ground
      (arith, tdiv_parts z d, -ℤ_parts (negsuc n) (pos half), parts_disjoint z, div_below half d h)

module _ (r : MicroCents) (t : ℕ) where
  -- The magnitude of the cost is that of the product over a million, rounded half up and clamped.
  pub cost_for_tokens_parts :
      (pos_part (cost_for_tokens r t) ≡ min ((pos_part r * t + 500_000) / 1_000_000) i64_max)
      × (neg_part (cost_for_tokens r t)
          ≡ min ((neg_part r * t + 500_000) / 1_000_000) (i64_max + 1))
  unfolding cost_for_tokens
  cost_for_tokens_parts =
      let x = r *ℤ pos t in
      rw (clamp-eq-saturate (round_half x 500_000 1_000_000)) (
        omega (
          arith,
          saturate_parts,
          *ℤ_pos_parts r t,
          round_half_parts x 500_000 1_000_000 (omega arith),
        ))

  pub mul_basis_points_parts :
      (pos_part (mul_basis_points r t) ≡ min ((pos_part r * t + 5_000) / 10_000) i64_max)
      × (neg_part (mul_basis_points r t) ≡ min ((neg_part r * t + 5_000) / 10_000) (i64_max + 1))
  unfolding mul_basis_points
  mul_basis_points_parts =
      let x = r *ℤ pos t in
      rw (clamp-eq-saturate (round_half x 5_000 10_000)) (
        omega
          (arith, saturate_parts, *ℤ_pos_parts r t, round_half_parts x 5_000 10_000 (omega arith)))
