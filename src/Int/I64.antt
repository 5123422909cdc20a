-- ===== src/Int/I64.antt =====
-- Rust's `i64`, as integers in its range: `saturating_*` clamps an exact result, and the plain
-- operators of a release build wrap it around (the release profile of Cargo.toml does not turn
-- overflow checks on).
use aegis_ai_gateway.Prelude.{
  ℕ, ◌+◌, ◌-◌, ◌^◌, ◌%◌, ◌≤◌, ◌<◌, ◌≡◌, refl, arith, ltb, if◌then◌else◌, min,
}
use aegis_ai_gateway.Int.{
  ℤ, pos, negsuc, pos_part, neg_part, ◌+ℤ◌, ◌-ℤ◌, ◌*ℤ◌, ◌≤ℤ◌, neg, abs, +ℤ_parts, -ℤ_parts,
  neg_parts, eq_of_parts, parts_disjoint,
}

abbrev pub i64_max : ℕ
i64_max = 9223372036854775807

abbrev pub InI64 : ℤ → Type 0
InI64 a = (pos_part a ≤ i64_max) × (neg_part a ≤ i64_max + 1)

-- The nearest value in range.
unfoldable pub saturate : ℤ → ℤ
saturate (pos n) = pos (min n i64_max)
saturate (negsuc n) = negsuc (min n i64_max)

-- The value in range with the same 64 bits.
unfoldable pub wrap : ℤ → ℤ
wrap (pos n) = let r = n % 2 ^ 64 in if ltb r (2 ^ 63) then pos r else negsuc (2 ^ 64 - r - 1)
wrap (negsuc n) = let r = n % 2 ^ 64 in if ltb r (2 ^ 63) then negsuc r else pos (2 ^ 64 - r - 1)

pub saturate_parts :
    (a : ℤ)
    → (pos_part (saturate a) ≡ min (pos_part a) i64_max)
      × (neg_part (saturate a) ≡ min (neg_part a) (i64_max + 1))
unfolding saturate
saturate_parts (pos n) = omega arith
saturate_parts (negsuc n) = omega arith

pub ruleset i64_laws =
    (arith, +ℤ_parts, -ℤ_parts, neg_parts, eq_of_parts, saturate_parts, parts_disjoint)

pub saturate-InI64 : (a : ℤ) → InI64 (saturate a)
saturate-InI64 a = omega i64_laws

pub saturate_id : (a : ℤ) → InI64 a → saturate a ≡ a
saturate_id a h = omega i64_laws

pub wrap-InI64 : (a : ℤ) → InI64 (wrap a)
unfolding wrap
wrap-InI64 (pos n) = ground arith
wrap-InI64 (negsuc n) = ground arith

pub wrap_id : (a : ℤ) → InI64 a → wrap a ≡ a
unfolding wrap
wrap_id (pos n) h = ground arith
wrap_id (negsuc n) h = ground arith

unfoldable pub saturating_add : ℤ → ℤ → ℤ
saturating_add a b = saturate (a +ℤ b)

unfoldable pub saturating_sub : ℤ → ℤ → ℤ
saturating_sub a b = saturate (a -ℤ b)

unfoldable pub saturating_mul : ℤ → ℤ → ℤ
saturating_mul a b = saturate (a *ℤ b)

unfoldable pub wrapping_add : ℤ → ℤ → ℤ
wrapping_add a b = wrap (a +ℤ b)

unfoldable pub wrapping_sub : ℤ → ℤ → ℤ
wrapping_sub a b = wrap (a -ℤ b)

unfoldable pub wrapping_mul : ℤ → ℤ → ℤ
wrapping_mul a b = wrap (a *ℤ b)

unfoldable pub wrapping_neg : ℤ → ℤ
wrapping_neg a = wrap (neg a)

unfoldable pub wrapping_abs : ℤ → ℤ
wrapping_abs a = wrap (pos (abs a))

pub saturating_add-InI64 : (a b : ℤ) → InI64 (saturating_add a b)
unfolding saturating_add
saturating_add-InI64 a b = saturate-InI64 (a +ℤ b)

pub saturating_add_exact : (a b : ℤ) → InI64 (a +ℤ b) → saturating_add a b ≡ a +ℤ b
unfolding saturating_add
saturating_add_exact a b h = saturate_id (a +ℤ b) h

pub saturating_sub_exact : (a b : ℤ) → InI64 (a -ℤ b) → saturating_sub a b ≡ a -ℤ b
unfolding saturating_sub
saturating_sub_exact a b h = saturate_id (a -ℤ b) h

pub wrapping_sub_exact : (a b : ℤ) → InI64 (a -ℤ b) → wrapping_sub a b ≡ a -ℤ b
unfolding wrapping_sub
wrapping_sub_exact a b h = wrap_id (a -ℤ b) h

-- Negation is exact but for the least value.
pub wrapping_neg_exact : (a : ℤ) → InI64 a → neg_part a ≤ i64_max → wrapping_neg a ≡ neg a
unfolding wrapping_neg
wrapping_neg_exact a h m = wrap_id (neg a) (omega i64_laws)
