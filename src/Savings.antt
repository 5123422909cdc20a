-- ===== src/Savings.antt =====
-- apps/gateway/src/metering/savings.rs: what one request saved, who keeps it, which lever explains
-- it, and the running totals. Percentages for display (`f64`) are left out.
pub mod Breakdown
pub mod Components
pub mod Totals
mod Tests
use aegis_ai_gateway.Prelude.{ℕ, ◌+◌, ◌^◌, ◌%◌, Bool, if◌then◌else◌}
use aegis_ai_gateway.Int.{ℤ, pos, ltb_ℤ, min_ℤ}
use aegis_ai_gateway.Money.{MicroCents, add, sub, floor_at_zero, is_zero, mul_basis_points}

pub record SavingsBreakdown : Type 0 where
  pub baseline_cost : MicroCents
  pub actual_cost : MicroCents
  pub gross_savings : MicroCents
  pub aegis_fee : MicroCents
  pub customer_net : MicroCents

-- `SavingsBreakdown::compute`
unfoldable pub compute : MicroCents → MicroCents → ℕ → SavingsBreakdown
compute baseline_cost actual_cost savings_share_basis_points =
    let gross_savings = floor_at_zero (sub baseline_cost actual_cost) in
    let aegis_fee : MicroCents =
      if is_zero gross_savings
      then pos 0
      else mul_basis_points gross_savings savings_share_basis_points in
    record {
      baseline_cost = baseline_cost;
      actual_cost = actual_cost;
      gross_savings = gross_savings;
      aegis_fee = aegis_fee;
      customer_net = sub gross_savings aegis_fee;
    }

unfoldable pub passthrough : MicroCents → SavingsBreakdown
passthrough cost = record {
  baseline_cost = cost;
  actual_cost = cost;
  gross_savings = pos 0;
  aegis_fee = pos 0;
  customer_net = pos 0;
}

-- `SavingsBreakdown::cache_hit`
unfoldable pub cache_hit : MicroCents → ℕ → SavingsBreakdown
cache_hit baseline_cost savings_share_basis_points =
    compute baseline_cost (pos 0) savings_share_basis_points

unfoldable pub is_overspend : SavingsBreakdown → Bool
is_overspend b = ltb_ℤ b.baseline_cost b.actual_cost

unfoldable pub overspend_amount : SavingsBreakdown → MicroCents
overspend_amount b = floor_at_zero (sub b.actual_cost b.baseline_cost)

pub record SavingsComponents : Type 0 where
  pub routing_savings : MicroCents
  pub compression_savings : MicroCents
  pub cache_savings : MicroCents

-- `SavingsComponents::cache_hit`
unfoldable pub cache_hit_components : MicroCents → SavingsComponents
cache_hit_components gross_savings = record {
  routing_savings = pos 0;
  compression_savings = pos 0;
  cache_savings = gross_savings;
}

-- `SavingsComponents::compute`
unfoldable pub components : MicroCents → MicroCents → MicroCents → SavingsComponents
components gross_savings compression_savings_raw cache_savings_raw =
    let compression = min_ℤ (floor_at_zero compression_savings_raw) gross_savings in
    let cache = min_ℤ (floor_at_zero cache_savings_raw) (sub gross_savings compression) in
    record {
      routing_savings = floor_at_zero (sub (sub gross_savings compression) cache);
      compression_savings = compression;
      cache_savings = cache;
    }

-- `SavingsComponents::sum`
unfoldable pub components_sum : SavingsComponents → MicroCents
components_sum c = add (add c.routing_savings c.compression_savings) c.cache_savings

pub record SavingsTotals : Type 0 where
  pub requests : ℕ
  pub baseline_cost : MicroCents
  pub actual_cost : MicroCents
  pub gross_savings : MicroCents
  pub aegis_fee : MicroCents
  pub customer_net : MicroCents
  pub cache_hits : ℕ

-- `SavingsTotals::add`; the counts are `u64`.
unfoldable pub add_to_totals : SavingsTotals → SavingsBreakdown → Bool → SavingsTotals
add_to_totals t b hit = record {
  requests = (t.requests + 1) % 2 ^ 64;
  baseline_cost = add t.baseline_cost b.baseline_cost;
  actual_cost = add t.actual_cost b.actual_cost;
  gross_savings = add t.gross_savings b.gross_savings;
  aegis_fee = add t.aegis_fee b.aegis_fee;
  customer_net = add t.customer_net b.customer_net;
  cache_hits = if hit then (t.cache_hits + 1) % 2 ^ 64 else t.cache_hits;
}
