-- ===== src/Fallback/Circuit.antt =====
-- apps/gateway/src/engine/fallback.rs: when a circuit opens, and who may probe it.
use aegis_ai_gateway.Prelude.{
  ℕ, ◌+◌, ◌-◌, ◌≤◌, ◌≡◌, arith, refl, true, false, Bool-cases, inl, inr, some, if◌then◌else◌, leb,
  min,
}
use aegis_ai_gateway.Text.{Text, text_eq}
use aegis_ai_gateway.Text.Equality.{text_eq_refl}
use aegis_ai_gateway.Table.{insert}
use aegis_ai_gateway.Fallback.{
  ProviderHealth, BreakerEntry, half_open, state_since, state, is_available, fail, lets_through,
  entry_of, record_failure, claim_probe, try_probe, consecutive_failures, saturating_succ, u32_max,
  failure_threshold, open_duration,
}
use aegis_ai_gateway.Fallback.Breaker.{
  state-entry_of, failures-entry_of, entry_of-insert, roll_window_keeps,
}

fail_opens :
    (now : ℕ) (e : BreakerEntry) → 4 ≤ e.consecutive_failures → (fail now e).opened_at ≡ some now
unfolding fail saturating_succ
fail_opens now e many =
    let reached : leb failure_threshold (min (e.consecutive_failures + 1) u32_max) ≡ true =
      ground arith in
    rw (roll_window_keeps now e).1 (rw reached refl)

state-insert :
    (h : ProviderHealth) (now : ℕ) (p q : Text) (e : BreakerEntry)
    → state (insert p e h) now q
      ≡ (if text_eq p q then state_since now e.opened_at else state h now q)
state-insert h now p q e =
    rw (state-entry_of (insert p e h) now q, entry_of-insert p q e h)
      (elim (Bool-cases (text_eq p q)) [
        | inl same ↦ rw same refl
        | inr other ↦ rw (other, state-entry_of h now q) refl
      ])

through_since :
    (now at : ℕ) → lets_through (state_since now (some at)) ≡ leb open_duration (now - at)
unfolding state_since lets_through
through_since now at = elim (Bool-cases (leb open_duration (now - at))) [
  | inl e ↦ rw e refl
  | inr e ↦ rw e refl
]

is_available_lem :
    (h : ProviderHealth) (now : ℕ) (p : Text) → is_available h now p ≡ lets_through (state h now p)
unfolding is_available
is_available_lem h now p = refl

record_failure_lem :
    (h : ProviderHealth) (at : ℕ) (p : Text)
    → (record_failure at p h).1 ≡ insert p (fail at (entry_of h p)) h
unfolding record_failure
record_failure_lem h at p = refl

try_probe_lem :
    (h : ProviderHealth) (now : ℕ) (p : Text) → try_probe now p h ≡ claim_probe (state h now p) p h
unfolding try_probe
try_probe_lem h now p = refl

-- A failure after at least four others in a row takes the provider out for the next 30 seconds and no
-- longer, whatever its circuit was before, and leaves every other provider's circuit as it was.
pub failure_opens_for_thirty_seconds :
    (h : ProviderHealth) (at now : ℕ) (p q : Text)
    → 4 ≤ consecutive_failures h p
    → text_eq p q ≡ false
    → (is_available (record_failure at p h).1 now p ≡ leb open_duration (now - at))
      × (state (record_failure at p h).1 now q ≡ state h now q)
failure_opens_for_thirty_seconds h at now p q many other =
    let e = fail at (entry_of h p) in
    let opens = fail_opens at (entry_of h p) (rw (failures-entry_of h p) at many) in
    rw (record_failure_lem h at p) (
      rw (is_available_lem (insert p e h) now p, state-insert h now p p e, text_eq_refl p, opens)
          (through_since now at),
      rw (state-insert h now p q e, other) refl,
    )

free_probe :
    (h : ProviderHealth) (p : Text)
    → (entry_of h p).probing ≡ false
    → claim_probe half_open p h ≡ (true, insert p (record (entry_of h p) { probing = true }) h)
unfolding claim_probe
free_probe h p free = rw free refl

taken_probe :
    (h : ProviderHealth) (p : Text)
    → (entry_of h p).probing ≡ true
    → (claim_probe half_open p h).0 ≡ false
unfolding claim_probe
taken_probe h p taken = rw taken refl

-- Once a circuit is half open and nothing is probing it, the first caller gets to probe, and every
-- caller after it is refused while the circuit stays half open.
pub probe_is_single :
    (h : ProviderHealth) (now later : ℕ) (p : Text)
    → state h now p ≡ half_open
    → (entry_of h p).probing ≡ false
    → state (try_probe now p h).1 later p ≡ half_open
    → ((try_probe now p h).0 ≡ true) × ((try_probe later p (try_probe now p h).1).0 ≡ false)
probe_is_single h now later p half free still =
    let claimed = record (entry_of h p) { probing = true } in
    let first : try_probe now p h ≡ (true, insert p claimed h) =
      rw (try_probe_lem h now p) (rw half (free_probe h p free)) in
    let still' = rw first at still in
    let taken : (entry_of (insert p claimed h) p).probing ≡ true =
      rw (entry_of-insert p p claimed h, text_eq_refl p) refl in
    rw first (
      refl,
      rw (try_probe_lem (insert p claimed h) later p)
          (rw still' (taken_probe (insert p claimed h) p taken)),
    )
