-- ===== src/Governance.antt =====
-- apps/gateway/src/engine/governance.rs: which requests need approval, and the chargeback report. The
-- reasons, the shares (`f64`), the CSV and the detection of anomalies (`f64`) are left out.
pub mod Chargeback
mod Tests
use aegis_ai_gateway.Prelude.{
  ℕ, Bool, true, false, Option, none, some, List, [], ◌∷◌, map, any, if◌then◌else◌,
}
use aegis_ai_gateway.Int.{ℤ, pos, ltb_ℤ, leb_ℤ}
use aegis_ai_gateway.Int.I64.{wrapping_add}
use aegis_ai_gateway.Money.{MicroCents}
use aegis_ai_gateway.Policy.{matches_pattern}
use aegis_ai_gateway.Sorting.{sort_by}
use aegis_ai_gateway.Text.{Text, eq_ignore_ascii_case}
use aegis_ai_gateway.Usage.{Uuid}

pub data ApprovalDecision : Type 0 where
  allowed requires_approval : ApprovalDecision

unfoldable pub is_approved : ApprovalDecision → Bool
is_approved allowed = true
is_approved requires_approval = false

pub record ApprovalPolicy : Type 0 where
  pub models_requiring_approval : List Text
  pub max_unapproved_request_mc : Option ℤ
  pub exempt_teams : List Text

unfoldable pub is_exempt : ApprovalPolicy → Option Text → Bool
is_exempt p none = false
is_exempt p (some team) = any (λ exempt. eq_ignore_ascii_case exempt team) p.exempt_teams

unfoldable pub is_too_dear : Option ℤ → MicroCents → Bool
is_too_dear none cost = false
is_too_dear (some limit) cost = ltb_ℤ limit cost

-- `ApprovalPolicy::evaluate`; patterns match as those of the routing rules.
unfoldable pub decide :
    ApprovalPolicy → (model : Text) → MicroCents → Option Text → ApprovalDecision
unfolding is_exempt is_too_dear
decide p model projected_cost team =
    if is_exempt p team
    then allowed
    else if any (λ pattern. matches_pattern pattern model) p.models_requiring_approval
    then requires_approval
    else if is_too_dear p.max_unapproved_request_mc projected_cost
    then requires_approval
    else allowed

-- What one cost center used, or what nobody is charged for.
pub record Spending : Type 0 where
  pub center : Option Text
  pub requests : ℤ
  pub spend : MicroCents
  pub savings : MicroCents
  pub fee : MicroCents

pub record ChargebackLine : Type 0 where
  pub cost_center : Text
  pub requests : ℤ
  pub spend_mc : ℤ
  pub savings_mc : ℤ
  pub fee_mc : ℤ

pub record ChargebackReport : Type 0 where
  pub org_id : Uuid
  pub period_start : Text
  pub period_end : Text
  pub lines : List ChargebackLine
  pub total_spend_mc : ℤ
  pub unattributed_mc : ℤ

-- `sum` of `i64`s.
unfoldable pub sum_from : (so_far : ℤ) → List ℤ → ℤ
sum_from so_far [] = so_far
sum_from so_far (x ∷ xs) = sum_from (wrapping_add so_far x) xs

unfoldable pub without_center : List Spending → List ℤ
without_center [] = []
without_center (e ∷ es) =
    let rest = without_center es in elim e.center [ none ↦ e.spend ∷ rest | some _ ↦ rest ]

unfoldable pub lines_of : List Spending → List ChargebackLine
lines_of [] = []
lines_of (e ∷ es) =
    let rest = lines_of es in
    elim e.center [
      | none ↦ rest
      | some cost_center ↦
          record {
            cost_center = cost_center;
            requests = e.requests;
            spend_mc = e.spend;
            savings_mc = e.savings;
            fee_mc = e.fee;
          }
          ∷ rest
    ]

-- `Reverse` of the spend.
unfoldable pub dearer_first : ChargebackLine → ChargebackLine → Bool
dearer_first a b = leb_ℤ b.spend_mc a.spend_mc

unfoldable pub build :
    (org_id : Uuid) (period_start period_end : Text) → List Spending → ChargebackReport
unfolding sum_from without_center lines_of
build org_id period_start period_end entries = record {
  org_id = org_id;
  period_start = period_start;
  period_end = period_end;
  lines = sort_by dearer_first (lines_of entries);
  total_spend_mc = sum_from (pos 0) (map (λ (e : Spending). e.spend) entries);
  unattributed_mc = sum_from (pos 0) (without_center entries);
}
