-- ===== src/Scheduler.antt =====
-- apps/gateway/src/workers/scheduler.rs: the claim that lets one replica run a job. The jobs
-- themselves and the names of the periods (chrono) are left out.
pub mod Claim
pub mod Lapse
mod Tests
use aegis_ai_gateway.Prelude.{ℕ, Bool, true, false, some, ◌++◌}
use aegis_ai_gateway.Int.{ℤ, pos, eqb_ℤ}
use aegis_ai_gateway.Error.{Result, ok, err}
use aegis_ai_gateway.Store.{KvStore}
use aegis_ai_gateway.Text.{Text, codes}

-- Two hours, in milliseconds.
abbrev pub claim_ttl : ℕ
claim_ttl = 7_200_000

abbrev pub claim_key : (job period : Text) → Text
claim_key job period = codes "aegis:sched:" ++ job ++ codes ":" ++ period

-- Whether `incr_by` answers that this caller is the first.
unfoldable pub is_first : Result ℤ → Bool
is_first (ok total) = eqb_ℤ total (pos 1)
is_first (err e) = false

module _ {S : Type 0} ⦃k : KvStore S⦄ where
  unfoldable pub claim : (job period : Text) → S → Bool × S
  unfolding is_first
  claim job period s =
      let (total, s1) = k.incr_by (claim_key job period) (pos 1) (some claim_ttl) s in
      (is_first total, s1)
