-- ===== src/Savings/Components.antt =====
-- The three levers of a saving (`SavingsComponents` of metering/savings.rs).
use aegis_ai_gateway.Prelude.{◌≡◌}
use aegis_ai_gateway.Int.{pos, ◌≤ℤ◌, min_ℤ_parts}
use aegis_ai_gateway.Int.I64.{InI64}
use aegis_ai_gateway.Money.{MicroCents}
use aegis_ai_gateway.Money.Amounts.{money_laws}
use aegis_ai_gateway.Savings.{components, components_sum}

-- For a saving that is not negative, and whatever the two raw figures are: each lever is between
-- zero and the saving, and the three sum to it exactly.
pub components_sum_exact :
    (gross compression_raw cache_raw : MicroCents)
    → InI64 gross
    → pos 0 ≤ℤ gross
    → let c = components gross compression_raw cache_raw in
      (pos 0 ≤ℤ c.routing_savings)
      × (pos 0 ≤ℤ c.compression_savings)
      × (pos 0 ≤ℤ c.cache_savings)
      × (components_sum c ≡ gross)
unfolding components components_sum
components_sum_exact gross compression_raw cache_raw r h = omega (money_laws, min_ℤ_parts)
