-- ===== src/Money/Amounts.antt =====
-- The parts of the results of the small operations of money.rs, for `omega`.
use aegis_ai_gateway.Prelude.{ℕ, ◌+◌, ◌≤◌, ◌≡◌, ◌⊎◌, true, false, arith, min, List, [], ◌∷◌}
use aegis_ai_gateway.Int.{
  ℤ, pos, negsuc, pos_part, neg_part, ◌+ℤ◌, ◌-ℤ◌, ◌≤ℤ◌, +ℤ_parts, -ℤ_parts, eq_of_parts,
  parts_disjoint, eqb_ℤ, min_ℤ, max_ℤ,
}
use aegis_ai_gateway.Int.I64.{
  InI64, i64_max, saturate, saturate_parts, saturating_add, saturating_sub,
}
use aegis_ai_gateway.Money.{MicroCents, add, sub, floor_at_zero, is_zero}

pub floor_at_zero_parts :
    (a : MicroCents) → (pos_part (floor_at_zero a) ≡ pos_part a) × (neg_part (floor_at_zero a) ≡ 0)
unfolding floor_at_zero
floor_at_zero_parts a = ground arith

pub add-eq-saturate : (a b : MicroCents) → add a b ≡ saturate (a +ℤ b)
unfolding add saturating_add
add-eq-saturate a b = λ i. saturate (a +ℤ b)

pub sub-eq-saturate : (a b : MicroCents) → sub a b ≡ saturate (a -ℤ b)
unfolding sub saturating_sub
sub-eq-saturate a b = λ i. saturate (a -ℤ b)

-- The exact sum and difference, clamped.
pub add_parts :
    (a b : MicroCents)
    → (pos_part (add a b) ≡ min (pos_part (a +ℤ b)) i64_max)
      × (neg_part (add a b) ≡ min (neg_part (a +ℤ b)) (i64_max + 1))
add_parts a b = rw (add-eq-saturate a b) (saturate_parts (a +ℤ b))

pub sub_parts :
    (a b : MicroCents)
    → (pos_part (sub a b) ≡ min (pos_part (a -ℤ b)) i64_max)
      × (neg_part (sub a b) ≡ min (neg_part (a -ℤ b)) (i64_max + 1))
sub_parts a b = rw (sub-eq-saturate a b) (saturate_parts (a -ℤ b))

pub ruleset money_laws = (
  arith, +ℤ_parts, -ℤ_parts, eq_of_parts, parts_disjoint, add_parts, sub_parts, floor_at_zero_parts,
)

pub is_zero→eq : (a : MicroCents) → is_zero a ≡ true → a ≡ pos 0
unfolding is_zero
is_zero→eq a h = ground arith

pub not-is_zero→ne : (a : MicroCents) → is_zero a ≡ false → 1 ≤ pos_part a + neg_part a
unfolding is_zero
not-is_zero→ne a h = ground arith

pub add_exact : (a b : MicroCents) → InI64 (a +ℤ b) → add a b ≡ a +ℤ b
add_exact a b h = omega money_laws

pub sub_exact : (a b : MicroCents) → InI64 (a -ℤ b) → sub a b ≡ a -ℤ b
sub_exact a b h = omega money_laws
