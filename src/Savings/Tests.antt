-- ===== src/Savings/Tests.antt =====
-- The theorems on savings at a request that was served for 400 in place of 1000.
use aegis_ai_gateway.Prelude.{◌≡◌, arith}
use aegis_ai_gateway.Int.{pos, ◌+ℤ◌, ◌≤ℤ◌}
use aegis_ai_gateway.Savings.{compute}
use aegis_ai_gateway.Savings.Breakdown.{compute_conserves}

compute_conserves_example :
    (pos 0 ≤ℤ (compute (pos 1000) (pos 400) 2000).aegis_fee)
    × ((compute (pos 1000) (pos 400) 2000).aegis_fee
        ≤ℤ (compute (pos 1000) (pos 400) 2000).gross_savings)
    × (pos 0 ≤ℤ (compute (pos 1000) (pos 400) 2000).customer_net)
    × ((compute (pos 1000) (pos 400) 2000).aegis_fee
          +ℤ (compute (pos 1000) (pos 400) 2000).customer_net
        ≡ (compute (pos 1000) (pos 400) 2000).gross_savings)
compute_conserves_example = compute_conserves (pos 1000) (pos 400) 2000 (omega arith)
