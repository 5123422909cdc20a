-- ===== src/Scheduler/Tests.antt =====
-- apps/gateway/src/workers/scheduler.rs: two replicas that claim the same digest.
use aegis_ai_gateway.Prelude.{◌≡◌, refl, arith, true, false, List, [], ◌∷◌, any, if◌then◌else◌}
use aegis_ai_gateway.Table.{lookup}
use aegis_ai_gateway.Text.{codes}
use aegis_ai_gateway.Store.Memory.{MemoryStore, memory_store, number_of}
use aegis_ai_gateway.Store.Memory.Counter.{memory_counters, counter}
use aegis_ai_gateway.Scheduler.{claim, claim_key}
use aegis_ai_gateway.Scheduler.Claim.{at, Call, is_for, grants, IsTimely, claim_once}
use aegis_ai_gateway.Scheduler.Lapse.{claim_lapses}

abbrev empty : MemoryStore
empty = record {
  poisoned = false;
  values = [];
  windows = [];
  streams = [];
  stream_seq = 0;
  now = 1000;
}

empty-IsUp : memory_counters.IsUp empty
empty-IsUp = record { usable = refl; clock_fits = omega arith }

-- Two replicas try the digest, two minutes apart, and one another job between them.
abbrev two_replicas : List Call
two_replicas =
    record { time = 5000; job = codes "weekly-digest"; period = codes "2026-W34" }
    ∷ record { time = 65_000; job = codes "pricing-check"; period = codes "2026-08-21" }
    ∷ record { time = 125_000; job = codes "weekly-digest"; period = codes "2026-W34" }
    ∷ []

two_replicas-IsTimely : IsTimely 1000 two_replicas
two_replicas-IsTimely =
    ((omega arith, omega arith), ((omega arith, omega arith), ((omega arith, omega arith), tt)))

claim_once_example :
    grants (claim_key (codes "weekly-digest") (codes "2026-W34")) two_replicas empty ≡ (
      if any (is_for (claim_key (codes "weekly-digest") (codes "2026-W34"))) two_replicas
      then 1
      else 0)
unfolding counter lookup number_of
claim_once_example =
    claim_once (claim_key (codes "weekly-digest") (codes "2026-W34")) two_replicas empty empty-IsUp
      refl two_replicas-IsTimely

-- Two hours after the digest at 9:00.
claim_lapses_example :
    ((claim (codes "weekly-digest") (codes "2026-W34") empty).0 ≡ true)
    × ((claim
          (codes "weekly-digest")
          (codes "2026-W34")
          (at 7_201_000 (claim (codes "weekly-digest") (codes "2026-W34") empty).1)).0
        ≡ true)
unfolding counter lookup number_of
claim_lapses_example =
    claim_lapses (codes "weekly-digest") (codes "2026-W34") empty 7_201_000 empty-IsUp refl
      (omega arith) (omega arith)
