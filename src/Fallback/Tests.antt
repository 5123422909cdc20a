-- ===== src/Fallback/Tests.antt =====
-- A circuit behind one failure.
use aegis_ai_gateway.Prelude.{◌<◌, ◌≡◌, ◌↔◌, arith, []}
use aegis_ai_gateway.Text.{Text, codes}
use aegis_ai_gateway.Fallback.{
  closed, state, record_failure, consecutive_failures, failure_threshold,
}
use aegis_ai_gateway.Fallback.Breaker.{start, failure, closed_iff_under_threshold}

abbrev a : Text
a = codes "a"

closed_iff_under_threshold_example :
    (state (record_failure 20 a []).1 30 a ≡ closed)
    ↔ (consecutive_failures (record_failure 20 a []).1 a < failure_threshold)
closed_iff_under_threshold_example =
    closed_iff_under_threshold 30 a (failure 20 a (start 10) (omega arith))
