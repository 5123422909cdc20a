-- ===== src/Pricing/Costs.antt =====
-- apps/gateway/src/metering/pricing.rs: bounds on what a request costs, and the prompt-cache discount.
use aegis_ai_gateway.Prelude.{ℕ, ◌+◌, ◌*◌, ◌/◌, ◌^◌, ◌≤◌, ◌≡◌, ◌∙◌, arith, min, ap}
use aegis_ai_gateway.Int.{
  pos, pos_part, neg_part, ◌≤ℤ◌, ◌+ℤ◌, ◌*ℤ◌, tdiv_parts, *ℤ_pos_parts, +ℤ_parts, parts_disjoint,
  min_ℤ, max_ℤ, min_ℤ_parts, max_ℤ_parts,
}
use aegis_ai_gateway.Int.I64.{
  InI64, i64_max, saturating_mul, saturate, saturate_parts, wrapping_add, wrap_id,
}
use aegis_ai_gateway.Money.{MicroCents, add, cost_for_tokens}
use aegis_ai_gateway.Money.Amounts.{money_laws}
use aegis_ai_gateway.Money.Rounding.{cost_for_tokens_parts}
use aegis_ai_gateway.Pricing.{
  scale, ModelPricing, rates_for, input_cost_of, output_cost_of, cost_of, cache_discount_of,
  blended_per_mtok,
}
use aegis_ai_gateway.Types.{TokenUsage, total_input}

abbrev pub IsAmount : MicroCents → Type 0
IsAmount a = (neg_part a ≡ 0) × (pos_part a ≤ i64_max)

scale_parts :
    (rate : MicroCents) (bp : ℕ)
    → (pos_part (scale rate bp) ≡ min (pos_part rate * bp) i64_max / 10_000)
      × (neg_part (scale rate bp) ≡ min (neg_part rate * bp) (i64_max + 1) / 10_000)
unfolding scale saturating_mul
scale_parts rate bp =
    let x = rate *ℤ pos bp in
    omega (arith, tdiv_parts (saturate x) 10_000, saturate_parts x, *ℤ_pos_parts rate bp)

scale-IsAmount : (rate : MicroCents) (bp : ℕ) → neg_part rate ≡ 0 → IsAmount (scale rate bp)
scale-IsAmount rate bp h =
    let zero_times : neg_part rate * bp ≡ 0 = ap (λ n. n * bp) h ∙ omega arith in
    omega (arith, scale_parts rate bp)

cost_for_tokens-IsAmount :
    (rate : MicroCents) (n : ℕ) → neg_part rate ≡ 0 → IsAmount (cost_for_tokens rate n)
cost_for_tokens-IsAmount rate n h =
    let zero_times : neg_part rate * n ≡ 0 = ap (λ k. k * n) h ∙ omega arith in
    omega (arith, cost_for_tokens_parts rate n)

add-IsAmount : (a b : MicroCents) → IsAmount a → IsAmount b → IsAmount (add a b)
add-IsAmount a b h k = omega money_laws

-- No rate of the model is negative.
abbrev pub HasRates : ModelPricing → Type 0
HasRates m = (n : ℕ) → (neg_part (rates_for m n).0 ≡ 0) × (neg_part (rates_for m n).1 ≡ 0)

-- However many tokens of each class a request has, a model whose rates are not negative costs an
-- amount between zero and the largest i64.
pub cost_of-IsAmount : (m : ModelPricing) (u : TokenUsage) → HasRates m → IsAmount (cost_of m u)
unfolding cost_of input_cost_of output_cost_of
cost_of-IsAmount m u h =
    let rates = rates_for m (total_input u) in
    let r = h (total_input u) in
    add-IsAmount _ _
      (add-IsAmount _ _
        (add-IsAmount _ _ (cost_for_tokens-IsAmount rates.0 u.input_tokens r.0) (
          cost_for_tokens-IsAmount (scale rates.0 m.cache.read_bp) u.cached_input_tokens
            (scale-IsAmount rates.0 m.cache.read_bp r.0).0))
        (cost_for_tokens-IsAmount (scale rates.0 m.cache.write_bp) u.cache_write_tokens
          (scale-IsAmount rates.0 m.cache.write_bp r.0).0))
      (cost_for_tokens-IsAmount rates.1 u.output_tokens r.1)

scale-below :
    (rate : MicroCents) (bp : ℕ)
    → bp ≤ 10_000
    → neg_part rate ≡ 0
    → pos_part (scale rate bp) ≤ pos_part rate
scale-below rate bp h k =
    let grows : pos_part rate * bp ≤ pos_part rate * 10_000 = grind arith in
    omega (arith, scale_parts rate bp)

cost_for_tokens-below :
    (low high : MicroCents) (n : ℕ)
    → pos_part low ≤ pos_part high
    → pos_part (cost_for_tokens low n) ≤ pos_part (cost_for_tokens high n)
cost_for_tokens-below low high n h =
    let grows : pos_part low * n ≤ pos_part high * n = grind arith in
    omega (arith, cost_for_tokens_parts low n, cost_for_tokens_parts high n)

-- What the cached input of a request is billed and the discount that is reported for it add up
-- exactly to its price at the full rate, for a rate that is not negative and a cache that reads at
-- no more than it.
pub cache_discount_of_conserves :
    (m : ModelPricing) (u : TokenUsage)
    → HasRates m
    → m.cache.read_bp ≤ 10_000
    → add
        (cost_for_tokens
          (scale (rates_for m (total_input u)).0 m.cache.read_bp)
          u.cached_input_tokens)
        (cache_discount_of m u)
      ≡ cost_for_tokens (rates_for m (total_input u)).0 u.cached_input_tokens
unfolding cache_discount_of
cache_discount_of_conserves m u h k =
    let rate : MicroCents = (rates_for m (total_input u)).0 in
    let low = scale rate m.cache.read_bp in
    let r = (h (total_input u)).0 in
    let lower =
      cost_for_tokens-below low rate u.cached_input_tokens (scale-below rate m.cache.read_bp k r) in
    let a = cost_for_tokens-IsAmount rate u.cached_input_tokens r in
    let b =
      cost_for_tokens-IsAmount low u.cached_input_tokens
        (scale-IsAmount rate m.cache.read_bp r).0 in
    omega money_laws

-- The price that candidates are ranked by lies between the input and the output price, for prices
-- between zero and 2^60.
pub blended_per_mtok-between :
    (m : ModelPricing)
    → pos 0 ≤ℤ m.input_per_mtok
    → pos 0 ≤ℤ m.output_per_mtok
    → m.input_per_mtok ≤ℤ pos (2 ^ 60)
    → m.output_per_mtok ≤ℤ pos (2 ^ 60)
    → (min_ℤ m.input_per_mtok m.output_per_mtok ≤ℤ blended_per_mtok m)
      × (blended_per_mtok m ≤ℤ max_ℤ m.input_per_mtok m.output_per_mtok)
unfolding blended_per_mtok saturating_mul wrapping_add
blended_per_mtok-between m h k p q =
    let x = m.input_per_mtok *ℤ pos 3 in
    let y = saturate x +ℤ m.output_per_mtok in
    let fits : InI64 y =
      omega (arith, *ℤ_pos_parts m.input_per_mtok 3, saturate_parts x, +ℤ_parts, parts_disjoint) in
    rw (wrap_id y fits) (
      omega (
        arith,
        *ℤ_pos_parts m.input_per_mtok 3,
        saturate_parts x,
        +ℤ_parts,
        parts_disjoint,
        tdiv_parts y 4,
        min_ℤ_parts m.input_per_mtok m.output_per_mtok,
        max_ℤ_parts m.input_per_mtok m.output_per_mtok,
      ))
