-- ===== src/Savings/Breakdown.antt =====
-- The attribution of one request's savings (`SavingsBreakdown` of metering/savings.rs).
use aegis_ai_gateway.Prelude.{
  ℕ, ◌*◌, ◌≤◌, ◌≡◌, refl, arith, Bool-cases, inl, inr, if◌then◌else◌, sym, ◌∙◌, ap,
}
use aegis_ai_gateway.Int.{pos, negsuc, pos_part, neg_part, ◌+ℤ◌, ◌≤ℤ◌, eq_of_parts}
use aegis_ai_gateway.Money.{MicroCents, sub, is_zero, floor_at_zero, mul_basis_points}
use aegis_ai_gateway.Money.Rounding.{mul_basis_points_parts}
use aegis_ai_gateway.Money.Amounts.{money_laws, is_zero→eq, floor_at_zero_parts, sub_parts}
use aegis_ai_gateway.Savings.{SavingsBreakdown, compute}

-- A share of at most the whole of an amount that is not negative lies between zero and the amount.
pub share_bounds :
    (g : MicroCents) (bp : ℕ)
    → pos 0 ≤ℤ g
    → bp ≤ 10_000
    → (pos 0 ≤ℤ mul_basis_points g bp) × (mul_basis_points g bp ≤ℤ g)
share_bounds (pos n) bp h k =
    let part : n * bp ≤ n * 10_000 = grind arith in omega (arith, mul_basis_points_parts (pos n) bp)
share_bounds (negsuc n) bp h k = absurd (omega arith)

share-zero : (bp : ℕ) → mul_basis_points (pos 0) bp ≡ pos 0
share-zero bp = omega (arith, mul_basis_points_parts (pos 0) bp, eq_of_parts)

-- The test for a zero saving changes nothing: the share of zero is zero.
fee-eq-share :
    (g : MicroCents) (bp : ℕ)
    → (if is_zero g then pos 0 else mul_basis_points g bp) ≡ mul_basis_points g bp
fee-eq-share g bp = elim (Bool-cases (is_zero g)) [
  | inl e ↦ rw e (rw (is_zero→eq g e) (sym (share-zero bp)))
  | inr e ↦ rw e
]

module _ (baseline actual : MicroCents) (bp : ℕ) where
  abbrev attributed : SavingsBreakdown
  attributed = compute baseline actual bp

  gross_parts :
      (pos_part attributed.gross_savings ≡ pos_part (sub baseline actual))
      × (neg_part attributed.gross_savings ≡ 0)
  unfolding compute
  gross_parts = floor_at_zero_parts (sub baseline actual)

  pub aegis_fee-eq-share : attributed.aegis_fee ≡ mul_basis_points attributed.gross_savings bp
  unfolding compute
  aegis_fee-eq-share = fee-eq-share (floor_at_zero (sub baseline actual)) bp

  pub gross-eq-pos : attributed.gross_savings ≡ pos (pos_part attributed.gross_savings)
  gross-eq-pos = omega (arith, gross_parts, eq_of_parts)

  net-eq-sub : attributed.customer_net ≡ sub attributed.gross_savings attributed.aegis_fee
  unfolding compute
  net-eq-sub = refl

  -- With a share of at most 100%, whatever the two costs are: the fee and the customer's part are
  -- not negative, the fee is at most the saving, and together they are exactly the saving.
  pub compute_conserves :
      bp ≤ 10_000
      → (pos 0 ≤ℤ attributed.aegis_fee)
        × (attributed.aegis_fee ≤ℤ attributed.gross_savings)
        × (pos 0 ≤ℤ attributed.customer_net)
        × (attributed.aegis_fee +ℤ attributed.customer_net ≡ attributed.gross_savings)
  compute_conserves h =
      let share = share_bounds attributed.gross_savings bp (omega (arith, gross_parts)) h in
      rw (net-eq-sub, aegis_fee-eq-share)
        (omega (money_laws, gross_parts, sub_parts baseline actual, share))

  -- When the served model costs at least what the requested one would have, there is no saving, no
  -- fee at any share, and nothing to keep.
  pub no_fee_on_loss :
      baseline ≤ℤ actual
      → (attributed.gross_savings ≡ pos 0)
        × (attributed.aegis_fee ≡ pos 0)
        × (attributed.customer_net ≡ pos 0)
  no_fee_on_loss h =
      let none_saved : attributed.gross_savings ≡ pos 0 = omega (money_laws, gross_parts) in
      let no_fee : attributed.aegis_fee ≡ pos 0 =
        aegis_fee-eq-share ∙ ap (λ g. mul_basis_points g bp) none_saved ∙ share-zero bp in
      (none_saved, no_fee, rw (net-eq-sub, none_saved, no_fee) (omega money_laws))
