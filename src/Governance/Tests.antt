-- ===== src/Governance/Tests.antt =====
-- A report of two cost centers and of what nobody is charged for.
use aegis_ai_gateway.Prelude.{◌≡◌, refl, arith, List, [], ◌∷◌, none, some}
use aegis_ai_gateway.Int.{pos}
use aegis_ai_gateway.Sorting.Ascending.{IsAscending}
use aegis_ai_gateway.Text.{codes}
use aegis_ai_gateway.Governance.{Spending, build, sum_from, dearer_first}
use aegis_ai_gateway.Governance.Chargeback.{total_of, spends, charged, build-conserves}

abbrev entries : List Spending
entries =
    record {
      center = some (codes "a");
      requests = pos 2;
      spend = pos 10;
      savings = pos 1;
      fee = pos 0;
    }
    ∷ record { center = none; requests = pos 1; spend = pos 5; savings = pos 0; fee = pos 0 }
    ∷ record {
      center = some (codes "b");
      requests = pos 9;
      spend = pos 30;
      savings = pos 3;
      fee = pos 1;
    }
    ∷ []

build-conserves_example :
    let report = build (codes "o") (codes "01") (codes "02") entries in
    IsAscending dearer_first report.lines
    × (report.total_spend_mc ≡ pos (total_of (spends entries)))
    × (sum_from report.unattributed_mc (charged report.lines) ≡ report.total_spend_mc)
unfolding total_of
build-conserves_example =
    build-conserves (codes "o") (codes "01") (codes "02") entries (refl, (refl, (refl, tt)))
      (omega arith)
