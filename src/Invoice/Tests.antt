-- ===== src/Invoice/Tests.antt =====
-- The theorems on invoices at a small period.
use aegis_ai_gateway.Prelude.{ℕ, ◌≡◌, arith, true, String}
use aegis_ai_gateway.Int.{pos, ◌+ℤ◌, ◌≤ℤ◌}
use aegis_ai_gateway.Money.{MicroCents, mul_basis_points, floor_at_zero}
use aegis_ai_gateway.Invoice.{UsageSummary, build, subscription_price, lines_sum_to_total}
use aegis_ai_gateway.Invoice.Lines.{api_charge, build_total}

no_text : ℕ → MicroCents → String
no_text bp g = "savings"

abbrev org : ℕ
org = 1

abbrev from : ℕ
from = 2

abbrev to : ℕ
to = 3

abbrev now : ℕ
now = 4

abbrev usage : UsageSummary
usage = record { requests = pos 3; gross_savings_mc = pos 600 }

build_total_example :
    ((build no_text org "api" 2000 from to usage now).total_mc
      ≡ subscription_price "api"
        +ℤ api_charge "api" 3
        +ℤ mul_basis_points (floor_at_zero (pos 600)) 2000)
    × (pos 0 ≤ℤ (build no_text org "api" 2000 from to usage now).total_mc)
    × (lines_sum_to_total (build no_text org "api" 2000 from to usage now) ≡ true)
build_total_example =
    build_total "api" 3 2000 (pos 600) (omega arith) (omega arith) (omega arith) no_text org from to
      now
