-- ===== src/Money/Tests.antt =====
-- The theorems on costs at concrete rates.
use aegis_ai_gateway.Prelude.{arith}
use aegis_ai_gateway.Int.{pos, ◌+ℤ◌, ◌*ℤ◌, ◌≤ℤ◌}
use aegis_ai_gateway.Money.{cost_for_tokens}
use aegis_ai_gateway.Money.Cost.{cost_for_tokens_nearest}

cost_for_tokens_nearest_example :
    (cost_for_tokens (pos 15_000_000) 333 *ℤ pos 1_000_000
      ≤ℤ pos 15_000_000 *ℤ pos 333 +ℤ pos 500_000)
    × (pos 15_000_000 *ℤ pos 333
        ≤ℤ cost_for_tokens (pos 15_000_000) 333 *ℤ pos 1_000_000 +ℤ pos 500_000)
cost_for_tokens_nearest_example = cost_for_tokens_nearest (pos 15_000_000) 333 (omega arith)
