-- ===== src/Savings/Totals.antt =====
-- The running totals (`SavingsTotals::add` of metering/savings.rs).
use aegis_ai_gateway.Prelude.{◌≡◌, Bool, ap}
use aegis_ai_gateway.Int.{pos, pos_part, neg_part, ◌+ℤ◌, ◌≤ℤ◌}
use aegis_ai_gateway.Int.I64.{InI64}
use aegis_ai_gateway.Money.{MicroCents}
use aegis_ai_gateway.Money.Amounts.{money_laws}
use aegis_ai_gateway.Savings.{SavingsBreakdown, SavingsTotals, add_to_totals}

-- Nothing negative, and the fee and the customer's part make up the saving.
pub record IsSplit (gross fee net : MicroCents) : Type 0 where
  pub fee_nonneg : pos 0 ≤ℤ fee
  pub net_nonneg : pos 0 ≤ℤ net
  pub splits : fee +ℤ net ≡ gross

-- While the total saving fits an `i64`, adding a request whose fee and net make up its saving
-- leaves totals whose fee and net make up the total saving, and the total is the exact sum.
pub add_to_totals-IsSplit :
    (t : SavingsTotals) (b : SavingsBreakdown) (hit : Bool)
    → IsSplit t.gross_savings t.aegis_fee t.customer_net
    → IsSplit b.gross_savings b.aegis_fee b.customer_net
    → InI64 (t.gross_savings +ℤ b.gross_savings)
    → let u = add_to_totals t b hit in
      IsSplit u.gross_savings u.aegis_fee u.customer_net
      × (u.gross_savings ≡ t.gross_savings +ℤ b.gross_savings)
      × (u.aegis_fee ≡ t.aegis_fee +ℤ b.aegis_fee)
unfolding add_to_totals
add_to_totals-IsSplit t b hit ht hb fits = omega (
  money_laws,
  ap pos_part ht.splits,
  ap neg_part ht.splits,
  ap pos_part hb.splits,
  ap neg_part hb.splits,
)
