-- ===== src/Invoice/Fee.antt =====
-- The period fee against the sum of the per-request fees (`fee_is_consistent` of billing/invoice.rs).
use aegis_ai_gateway.Prelude.{
  ℕ, ◌+◌, ◌*◌, ◌/◌, ◌^◌, ◌≤◌, ◌≡◌, refl, arith, true, max, List, [], ◌∷◌, String, length, map, ap,
  length-map,
}
use aegis_ai_gateway.Int.{ℤ, pos, pos_part, neg_part, negsuc, ◌-ℤ◌, abs, leb_ℤ, max_ℤ}
use aegis_ai_gateway.Int.I64.{wrap_id, wrapping_sub, wrapping_abs}
use aegis_ai_gateway.Money.{MicroCents, floor_at_zero, mul_basis_points}
use aegis_ai_gateway.Money.Rounding.{mul_basis_points_parts}
use aegis_ai_gateway.Savings.{compute}
use aegis_ai_gateway.Savings.Breakdown.{aegis_fee-eq-share, gross-eq-pos}
use aegis_ai_gateway.Invoice.{UsageSummary, build, fee_is_consistent}

-- The savings of the period's requests, and the fees that they were charged one by one.
abbrev pub total_savings : List ℕ → ℕ
total_savings [] = 0
total_savings (g ∷ gs) = g + total_savings gs

unfoldable pub total_fees : List ℕ → ℕ → ℕ
total_fees [] bp = 0
total_fees (g ∷ gs) bp = pos_part (mul_basis_points (pos g) bp) + total_fees gs bp

-- Each fee is within half a micro-cent of the exact share.
total_fees_bounds :
    (gs : List ℕ) (bp : ℕ)
    → bp ≤ 10_000
    → total_savings gs ≤ 10 ^ 18
    → (10_000 * total_fees gs bp ≤ total_savings gs * bp + 5_000 * length gs)
      × (total_savings gs * bp ≤ 10_000 * total_fees gs bp + 4_999 * length gs)
unfolding total_fees
total_fees_bounds [] bp k h = omega arith
total_fees_bounds (g ∷ gs) bp k h =
    let share : g * bp ≤ g * 10_000 = grind arith in
    omega (arith, total_fees_bounds gs bp k, mul_basis_points_parts (pos g) bp)

module _ (gs : List ℕ) (bp : ℕ) (k : bp ≤ 10_000) (small : total_savings gs ≤ 10 ^ 18) where
  abbrev period_fee : MicroCents
  period_fee = mul_basis_points (floor_at_zero (pos (total_savings gs))) bp

  period_fee_parts :
      (pos_part period_fee ≡ (total_savings gs * bp + 5_000) / 10_000) × (neg_part period_fee ≡ 0)
  period_fee_parts =
      let g = floor_at_zero (pos (total_savings gs)) in
      let same : g ≡ pos (total_savings gs) = unfold floor_at_zero in ground arith in
      let share : total_savings gs * bp ≤ total_savings gs * 10_000 = grind arith in
      rw same (omega (arith, mul_basis_points_parts (pos (total_savings gs)) bp))

  -- The two figures differ by at most one micro-cent a request, and by at most one in all where
  -- there is no request.
  period_fee_near :
      (pos_part period_fee ≤ total_fees gs bp + max (length gs) 1)
      × (total_fees gs bp ≤ pos_part period_fee + max (length gs) 1)
  period_fee_near = omega (arith, period_fee_parts, total_fees_bounds gs bp k small)

  total_fees_small : total_fees gs bp ≤ 10 ^ 18 + max (length gs) 1
  total_fees_small =
      let share : total_savings gs * bp ≤ total_savings gs * 10_000 = grind arith in
      omega (arith, period_fee_parts, period_fee_near)

-- Where the difference is small, the check is a comparison of exact numbers.
consistent_of_near :
    (p : MicroCents) (f n : ℕ)
    → neg_part p ≡ 0
    → pos_part p ≤ 2 * 10 ^ 18
    → f ≤ 2 * 10 ^ 18
    → pos_part p ≤ f + max n 1
    → f ≤ pos_part p + max n 1
    → leb_ℤ (wrapping_abs (wrapping_sub p (pos f))) (max_ℤ (pos n) (pos 1)) ≡ true
unfolding wrapping_abs wrapping_sub abs max_ℤ ◌-ℤ◌
consistent_of_near (pos p) f n z hp hf up down =
    ground (arith, wrap_id (pos p -ℤ pos f), wrap_id (pos (abs (pos p -ℤ pos f))))
consistent_of_near (negsuc p) f n z hp hf up down = absurd (omega arith)

-- A request as its baseline and actual cost, and what metering/savings.rs records of it.
abbrev pub Costs : Type 0
Costs = MicroCents × MicroCents

abbrev pub savings_of : ℕ → Costs → ℕ
savings_of bp (baseline, actual) = pos_part (compute baseline actual bp).gross_savings

abbrev pub recorded_fees : ℕ → List Costs → ℕ
recorded_fees bp [] = 0
recorded_fees bp ((baseline, actual) ∷ rs) =
    pos_part (compute baseline actual bp).aegis_fee + recorded_fees bp rs

recorded_fees-eq-total :
    (bp : ℕ) (rs : List Costs) → recorded_fees bp rs ≡ total_fees (map (savings_of bp) rs) bp
unfolding total_fees
recorded_fees-eq-total bp [] = refl
recorded_fees-eq-total bp ((baseline, actual) ∷ rs) =
    let g = (compute baseline actual bp).gross_savings in
    let same : g ≡ pos (pos_part g) = gross-eq-pos baseline actual bp in
    ground (
      arith,
      recorded_fees-eq-total bp rs,
      aegis_fee-eq-share baseline actual bp,
      ap (λ (z : ℤ). pos_part (mul_basis_points z bp)) same,
    )

module _ {OrgId Date Time : Type 0} (share_text : ℕ → MicroCents → String) where
  -- For a period of up to a million billion requests, with up to a trillion dollars saved and a share
  -- of at most 100%: the check that the recomputed fee agrees with the sum of the recorded fees
  -- passes, for every plan.
  pub fee_is_consistent-build :
      (org : OrgId) (plan : String) (bp : ℕ) (from to : Date) (now : Time) (rs : List Costs)
      → bp ≤ 10_000
      → total_savings (map (savings_of bp) rs) ≤ 10 ^ 18
      → length rs ≤ 10 ^ 15
      → let usage : UsageSummary = record {
        requests = pos (length rs);
        gross_savings_mc = pos (total_savings (map (savings_of bp) rs));
      } in
        fee_is_consistent
          (build share_text org plan bp from to usage now)
          (pos (recorded_fees bp rs))
        ≡ true
  unfolding build fee_is_consistent
  fee_is_consistent-build org plan bp from to now rs k small few =
      let gs = map (savings_of bp) rs in
      let same : length gs ≡ length rs = length-map (savings_of bp) rs in
      rw (recorded_fees-eq-total bp rs) (
        consistent_of_near (period_fee gs bp k small) (total_fees gs bp) (length rs)
          (period_fee_parts gs bp k small).1
          (omega (arith, period_fee_near gs bp k small, total_fees_small gs bp k small, same))
          (omega (arith, total_fees_small gs bp k small, same))
          (omega (arith, period_fee_near gs bp k small, same))
          (omega (arith, period_fee_near gs bp k small, same)))
