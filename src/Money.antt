-- ===== src/Money.antt =====
-- apps/gateway/src/money.rs: amounts in micro-cents. `MicroCents` has one field, an `i64`, and is
-- modelled as that field.
pub mod Amounts
pub mod Rounding
pub mod Cost
mod Tests
use text.Mathlib.Text.{◌==◌}
use aegis_ai_gateway.Prelude.{ℕ, ◌≡◌, Bool, List, [], ◌∷◌, String, if◌then◌else◌, true, false}
use aegis_ai_gateway.Int.{
  ℤ, pos, negsuc, ◌+ℤ◌, ◌-ℤ◌, ◌*ℤ◌, leb_ℤ, ltb_ℤ, eqb_ℤ, tdiv, pos_part, neg_part,
}
use aegis_ai_gateway.Int.I64.{i64_max, saturate, saturating_add, saturating_sub, saturating_mul}

abbrev pub MicroCents : Type 0
MicroCents = ℤ

abbrev pub micro_cents_per_cent : ℕ
micro_cents_per_cent = 10_000

abbrev pub micro_cents_per_usd : ℕ
micro_cents_per_usd = 1_000_000

abbrev pub i64_min : ℤ
i64_min = negsuc i64_max

unfoldable pub from_cents : ℤ → MicroCents
from_cents cents = saturating_mul cents (pos micro_cents_per_cent)

unfoldable pub clamp_i128 : ℤ → ℤ
clamp_i128 value =
    if ltb_ℤ (pos i64_max) value
    then pos i64_max
    else if ltb_ℤ value i64_min
    then i64_min
    else value

-- The products are `i128` in the source; `Money.Rounding` shows that they fit.
unfoldable pub cost_for_tokens : MicroCents → ℕ → MicroCents
unfolding clamp_i128
cost_for_tokens rate_per_mtok tokens =
    let product = rate_per_mtok *ℤ pos tokens in
    let rounded : ℤ =
      if leb_ℤ (pos 0) product
      then tdiv (product +ℤ pos 500_000) 1_000_000
      else tdiv (product -ℤ pos 500_000) 1_000_000 in
    clamp_i128 rounded

unfoldable pub mul_basis_points : MicroCents → ℕ → MicroCents
unfolding clamp_i128
mul_basis_points amount basis_points =
    let product = amount *ℤ pos basis_points in
    let rounded : ℤ =
      if leb_ℤ (pos 0) product
      then tdiv (product +ℤ pos 5_000) 10_000
      else tdiv (product -ℤ pos 5_000) 10_000 in
    clamp_i128 rounded

unfoldable pub floor_at_zero : MicroCents → MicroCents
floor_at_zero amount = if ltb_ℤ amount (pos 0) then pos 0 else amount

unfoldable pub is_zero : MicroCents → Bool
is_zero amount = eqb_ℤ amount (pos 0)

-- Whole cents, truncated toward zero.
unfoldable pub to_cents : MicroCents → ℤ
to_cents amount = tdiv amount micro_cents_per_cent

-- The operators `+`, `+=` and `-` of `MicroCents`.
unfoldable pub add : MicroCents → MicroCents → MicroCents
add a b = saturating_add a b

unfoldable pub sub : MicroCents → MicroCents → MicroCents
sub a b = saturating_sub a b

fold_sum : MicroCents → List MicroCents → MicroCents
unfolding add
fold_sum acc [] = acc
fold_sum acc (x ∷ xs) = fold_sum (add acc x) xs

unfoldable pub sum : List MicroCents → MicroCents
unfolding fold_sum
sum xs = fold_sum (pos 0) xs

unfoldable pub savings_share_basis_points : String → ℕ
savings_share_basis_points plan =
    if plan == "pro"
    then 2_000
    else if plan == "team"
    then 1_500
    else if plan == "enterprise"
    then 1_000
    else 0
