-- ===== src/Invoice.antt =====
-- apps/gateway/src/billing/invoice.rs: the draft invoice of one organisation and period. Uuids,
-- dates and times are types of other crates, carried and never looked at. The text of the savings
-- line prints two floats, and is a function that `build` is given.
pub mod Lines
pub mod Fee
mod Tests
use Prim.Native.String.{◌++◌ as append_text}
use text.Mathlib.Text.{◌==◌}
use aegis_ai_gateway.Prelude.{ℕ, Bool, List, [], ◌∷◌, ◌++◌, String, if◌then◌else◌, not}
use aegis_ai_gateway.Int.{ℤ, pos, leb_ℤ, eqb_ℤ, max_ℤ}
use aegis_ai_gateway.Int.I64.{wrapping_add, wrapping_sub, wrapping_mul, wrapping_abs}
use aegis_ai_gateway.Money.{
  MicroCents, from_cents, add, sub, is_zero, floor_at_zero, mul_basis_points, to_cents,
}

-- The fields of `UsageSummary` (db/repo.rs) that an invoice reads.
pub record UsageSummary : Type 0 where
  pub requests : ℤ
  pub gross_savings_mc : ℤ

unfoldable pub subscription_price : String → MicroCents
unfolding from_cents
subscription_price plan =
    if plan == "pro"
    then from_cents (pos 2_900)
    else if plan == "team"
    then from_cents (pos 29_900)
    else if plan == "enterprise"
    then from_cents (pos 200_000)
    else pos 0

abbrev pub api_tier_per_request : MicroCents
api_tier_per_request = pos 100

pub record InvoiceLine : Type 0 where
  pub description : String
  pub quantity : ℤ
  pub unit_amount_mc : ℤ
  pub amount_mc : ℤ

unfoldable pub plan_label : String → String
plan_label plan =
    if plan == "pro"
    then "Pro"
    else if plan == "team"
    then "Team"
    else if plan == "enterprise"
    then "Enterprise"
    else if plan == "api"
    then "API"
    else "Free"

pub record Invoice (OrgId Date Time : Type 0) : Type 0 where
  pub org_id : OrgId
  pub period_start : Date
  pub period_end : Date
  pub plan : String
  pub lines : List InvoiceLine
  pub subscription_mc : ℤ
  pub savings_fee_mc : ℤ
  pub total_mc : ℤ
  pub gross_savings_mc : ℤ
  pub customer_net_mc : ℤ
  pub requests : ℤ
  pub generated_at : Time

-- `iter().map(|l| l.amount_mc).sum::<i64>()`
sum_amounts : ℤ → List InvoiceLine → ℤ
sum_amounts acc [] = acc
sum_amounts acc (l ∷ ls) = sum_amounts (wrapping_add acc l.amount_mc) ls

-- The lines in the order in which `build` pushes them, each under its condition.
subscription_line : String → List InvoiceLine
subscription_line plan =
    let subscription = subscription_price plan in
    if is_zero subscription
    then []
    else record {
      description = append_text (plan_label plan) " plan — monthly subscription";
      quantity = pos 1;
      unit_amount_mc = subscription;
      amount_mc = subscription;
    }
      ∷ []

api_amount : String → UsageSummary → MicroCents
api_amount plan usage =
    if plan == "api" then wrapping_mul api_tier_per_request usage.requests else pos 0

api_line : String → UsageSummary → List InvoiceLine
unfolding api_amount
api_line plan usage =
    if plan == "api"
    then record {
      description = "API tier — requests";
      quantity = usage.requests;
      unit_amount_mc = api_tier_per_request;
      amount_mc = api_amount plan usage;
    }
      ∷ []
    else []

module _ (share_text : ℕ → MicroCents → String) where
  share_line : ℕ → MicroCents → MicroCents → List InvoiceLine
  share_line savings_share_bp gross_savings savings_fee =
      if is_zero savings_fee
      then []
      else record {
        description = share_text savings_share_bp gross_savings;
        quantity = pos 1;
        unit_amount_mc = savings_fee;
        amount_mc = savings_fee;
      }
        ∷ []

  unfoldable pub build :
      {OrgId Date Time : Type 0}
      → OrgId
      → String
      → ℕ
      → Date
      → Date
      → UsageSummary
      → Time
      → Invoice OrgId Date Time
  unfolding subscription_line api_amount api_line share_line
  build org_id plan savings_share_bp period_start period_end usage now =
      let subscription = subscription_price plan in
      let api_usage = api_amount plan usage in
      let gross_savings = floor_at_zero usage.gross_savings_mc in
      let savings_fee = mul_basis_points gross_savings savings_share_bp in
      record {
        org_id = org_id;
        period_start = period_start;
        period_end = period_end;
        plan = plan;
        lines =
            subscription_line plan
            ++ (api_line plan usage ++ share_line savings_share_bp gross_savings savings_fee);
        subscription_mc = add subscription api_usage;
        savings_fee_mc = savings_fee;
        total_mc = add (add subscription api_usage) savings_fee;
        gross_savings_mc = gross_savings;
        customer_net_mc = sub gross_savings savings_fee;
        requests = usage.requests;
        generated_at = now;
      }

module _ {OrgId Date Time : Type 0} where
  -- `abs` of the least `i64` is itself in a release build.
  unfoldable pub fee_is_consistent : Invoice OrgId Date Time → ℤ → Bool
  fee_is_consistent invoice sum_of_request_fees_mc =
      let tolerance = max_ℤ invoice.requests (pos 1) in
      leb_ℤ (wrapping_abs (wrapping_sub invoice.savings_fee_mc sum_of_request_fees_mc)) tolerance

  unfoldable pub lines_sum_to_total : Invoice OrgId Date Time → Bool
  unfolding sum_amounts
  lines_sum_to_total invoice = eqb_ℤ (sum_amounts (pos 0) invoice.lines) invoice.total_mc

  -- `Invoice::is_zero`
  unfoldable pub is_zero_invoice : Invoice OrgId Date Time → Bool
  is_zero_invoice invoice = eqb_ℤ invoice.total_mc (pos 0)

  unfoldable pub total_cents : Invoice OrgId Date Time → ℤ
  total_cents invoice = to_cents invoice.total_mc
