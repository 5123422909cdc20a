-- ===== src/Pricing.antt =====
-- apps/gateway/src/metering/pricing.rs: what a model costs.
pub mod Names
pub mod Costs
mod Tests
use aegis_ai_gateway.Prelude.{
  ℕ, ◌≡◌, Bool, true, false, Option, none, some, String, leb, if◌then◌else◌,
}
use aegis_ai_gateway.Int.{ℤ, pos, tdiv, pos_part, ltb_ℤ}
use aegis_ai_gateway.Int.I64.{saturating_mul, wrapping_add}
use aegis_ai_gateway.Money.{MicroCents, add, sub, cost_for_tokens, floor_at_zero}
use aegis_ai_gateway.Text.{Text, split_once}
use aegis_ai_gateway.Types.{ModelTier, parse_tier, TokenUsage, total_input, wrap_u64}

pub record CachePricing : Type 0 where
  pub read_bp : ℕ
  pub write_bp : ℕ

abbrev pub no_cache : CachePricing
no_cache = record { read_bp = 10_000; write_bp = 10_000 }

abbrev pub quarter_read : CachePricing
quarter_read = record { read_bp = 2_500; write_bp = 10_000 }

abbrev pub anthropic : CachePricing
anthropic = record { read_bp = 1_000; write_bp = 12_500 }

unfoldable pub scale : MicroCents → ℕ → MicroCents
scale rate bp = tdiv (saturating_mul rate (pos bp)) 10_000

pub record LongContextTier : Type 0 where
  pub threshold_tokens : ℕ
  pub input_per_mtok : MicroCents
  pub output_per_mtok : MicroCents

pub record ModelPricing : Type 0 where
  pub model_id : Text
  pub provider : Text
  pub display_name : Text
  pub tier : ModelTier
  pub input_per_mtok : MicroCents
  pub output_per_mtok : MicroCents
  pub context_window : ℕ
  pub supports_tools : Bool
  pub supports_vision : Bool
  pub supports_chat : Bool
  pub is_active : Bool
  pub source : Text
  pub cache : CachePricing
  pub long_context : Option LongContextTier

rates_with : Option LongContextTier → (flat : MicroCents × MicroCents) → ℕ → MicroCents × MicroCents
rates_with none flat n = flat
rates_with (some tier) flat n =
    if leb tier.threshold_tokens n then (tier.input_per_mtok, tier.output_per_mtok) else flat

unfoldable pub rates_for : ModelPricing → ℕ → MicroCents × MicroCents
unfolding rates_with
rates_for m input_tokens =
    rates_with m.long_context (m.input_per_mtok, m.output_per_mtok) input_tokens

unfoldable pub input_cost_of : ModelPricing → TokenUsage → MicroCents
input_cost_of m u =
    let input_rate : MicroCents = (rates_for m (total_input u)).0 in
    add
      (add (cost_for_tokens input_rate u.input_tokens)
        (cost_for_tokens (scale input_rate m.cache.read_bp) u.cached_input_tokens))
      (cost_for_tokens (scale input_rate m.cache.write_bp) u.cache_write_tokens)

unfoldable pub output_cost_of : ModelPricing → TokenUsage → MicroCents
output_cost_of m u = cost_for_tokens (rates_for m (total_input u)).1 u.output_tokens

unfoldable pub cost_of : ModelPricing → TokenUsage → MicroCents
cost_of m u = add (input_cost_of m u) (output_cost_of m u)

abbrev pub plain_usage : ℕ → ℕ → TokenUsage
plain_usage input_tokens output_tokens = record {
  input_tokens = input_tokens;
  output_tokens = output_tokens;
  cached_input_tokens = 0;
  cache_write_tokens = 0;
  estimated = false;
}

unfoldable pub cost : ModelPricing → (input_tokens output_tokens : ℕ) → MicroCents
cost m input_tokens output_tokens = cost_of m (plain_usage input_tokens output_tokens)

unfoldable pub cache_discount_of : ModelPricing → TokenUsage → MicroCents
cache_discount_of m u =
    let input_rate : MicroCents = (rates_for m (total_input u)).0 in
    let full_rate_cost = cost_for_tokens input_rate u.cached_input_tokens in
    let actual_cost = cost_for_tokens (scale input_rate m.cache.read_bp) u.cached_input_tokens in
    floor_at_zero (sub full_rate_cost actual_cost)

unfoldable pub blended_per_mtok : ModelPricing → MicroCents
blended_per_mtok m =
    tdiv (wrapping_add (saturating_mul m.input_per_mtok (pos 3)) m.output_per_mtok) 4

unfoldable pub bare_name : ModelPricing → Text
bare_name m = elim (split_once b'/' m.model_id) [ none ↦ m.model_id | some (_, n) ↦ n ]

pub record Requirements : Type 0 where
  pub tools : Bool
  pub vision : Bool
  pub min_context : ℕ
  pub chat : Bool

-- A row of the table `model_pricing`.
pub record PricingRow : Type 0 where
  pub model_id : Text
  pub provider : Text
  pub display_name : Text
  pub tier : Text
  pub input_cost_per_mtok_mc : ℤ
  pub output_cost_per_mtok_mc : ℤ
  pub context_window : ℤ
  pub supports_tools : Bool
  pub supports_vision : Bool
  pub supports_chat : Bool
  pub is_active : Bool
  pub source : Text
  pub cache_read_bp : ℤ
  pub cache_write_bp : ℤ
  pub long_context_threshold_tokens : Option ℤ
  pub long_context_input_per_mtok_mc : Option ℤ
  pub long_context_output_per_mtok_mc : Option ℤ

unfoldable pub long_context_of : (threshold input output : Option ℤ) → Option LongContextTier
long_context_of (some threshold) (some input) (some output) =
    if ltb_ℤ (pos 0) threshold
    then some record {
      threshold_tokens = pos_part threshold;
      input_per_mtok = input;
      output_per_mtok = output;
    }
    else none
long_context_of _ _ _ = none

-- `.max(0) as u32` is the positive part.
unfoldable pub from_row : PricingRow → ModelPricing
unfolding long_context_of
from_row row = record {
  model_id = row.model_id;
  provider = row.provider;
  display_name = row.display_name;
  tier = parse_tier row.tier;
  input_per_mtok = row.input_cost_per_mtok_mc;
  output_per_mtok = row.output_cost_per_mtok_mc;
  context_window = pos_part row.context_window;
  supports_tools = row.supports_tools;
  supports_vision = row.supports_vision;
  supports_chat = row.supports_chat;
  is_active = row.is_active;
  source = row.source;
  cache = record { read_bp = pos_part row.cache_read_bp; write_bp = pos_part row.cache_write_bp };
  long_context =
      long_context_of row.long_context_threshold_tokens row.long_context_input_per_mtok_mc
        row.long_context_output_per_mtok_mc;
}
