-- ===== src/Scheduler/Lapse.antt =====
-- apps/gateway/src/workers/scheduler.rs over store.rs: how long a claim holds in `MemoryStore`.
use aegis_ai_gateway.Prelude.{
  ℕ, ◌≤◌, ◌+◌, ◌<◌, ◌^◌, ◌%◌, ◌≡◌, refl, ◌∙◌, arith, true, Option, some, if◌then◌else◌,
}
use aegis_ai_gateway.Int.{ℤ, pos, eqb_ℤ}
use aegis_ai_gateway.Int.I64.{saturating_add}
use aegis_ai_gateway.Text.Decimal.{to_string}
use aegis_ai_gateway.Text.{Text}
use aegis_ai_gateway.Text.Equality.{text_eq_refl}
use aegis_ai_gateway.Table.{lookup, lookup-insert}
use aegis_ai_gateway.Store.Memory.{
  MemoryStore, memory_store, incr_by, number_of, expiry_of, is_live,
}
use aegis_ai_gateway.Store.Memory.Counter.{counter, IsUp, incr-IsUp}
use aegis_ai_gateway.Scheduler.{claim, claim_key, claim_ttl}
use aegis_ai_gateway.Scheduler.Claim.{at, claim_answer, fresh_is_one}

expired_is_zero :
    (existing : ℤ) (e : Option ℕ) (v : Text) (now t ttl : ℕ)
    → existing ≡ pos 0
    → now + ttl < 2 ^ 64
    → now + ttl ≤ t
    → number_of
        (some (record {
          value = v;
          expires_at_ms = if eqb_ℤ existing (pos 0) then some ((now + ttl) % 2 ^ 64) else e;
        }))
        t
      ≡ pos 0
unfolding number_of is_live
expired_is_zero existing e v now t ttl none_yet fits late = rw none_yet (ground arith)

lapsed :
    (slot : Text) (s : MemoryStore) (t : ℕ)
    → IsUp s
    → counter slot s ≡ pos 0
    → s.now + claim_ttl ≤ t
    → counter slot (at t (incr_by slot (pos 1) (some claim_ttl) s).1) ≡ pos 0
unfolding incr_by counter
lapsed slot s t up none_yet late =
    rw (up.usable, lookup-insert slot slot, text_eq_refl slot)
      (expired_is_zero (number_of (lookup slot s.values) s.now) (expiry_of (lookup slot s.values))
        (to_string (saturating_add (number_of (lookup slot s.values) s.now) (pos 1))) s.now t
        claim_ttl none_yet (omega (arith, up.clock_fits)) late)

-- In a MemoryStore whose lock is usable, and while the clock does not overflow: a slot that nobody
-- has claimed is granted, and granted again to a caller that claims it two hours later or at any time
-- after.
pub claim_lapses :
    (job period : Text) (s : MemoryStore) (t : ℕ)
    → IsUp s
    → counter (claim_key job period) s ≡ pos 0
    → s.now + claim_ttl ≤ t
    → t + 2 ^ 40 < 2 ^ 64
    → ((claim job period s).0 ≡ true) × ((claim job period (at t (claim job period s).1)).0 ≡ true)
unfolding claim counter
claim_lapses job period s t up none_yet late fits =
    let slot = claim_key job period in
    let next_up = incr-IsUp slot (pos 1) claim_ttl s up in
    (
      claim_answer job period s.now s up.usable ∙ rw (none_yet, fresh_is_one) refl,
      claim_answer job period t (incr_by slot (pos 1) (some claim_ttl) s).1 next_up.usable
          ∙ rw (lapsed slot s t up none_yet late, fresh_is_one) refl,
    )
