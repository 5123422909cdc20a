-- ===== src/Fallback/Breaker.antt =====
-- apps/gateway/src/engine/fallback.rs: the circuit breaker as a state machine.
use aegis_ai_gateway.Prelude.{
  ℕ, ◌+◌, ◌≤◌, ◌<◌, ◌≡◌, ◌↔◌, arith, refl, true, Bool-cases, Option-cases, inl, inr, [], Option,
  none, some, if◌then◌else◌, leb, min,
}
use aegis_ai_gateway.Text.{Text, text_eq}
use aegis_ai_gateway.Table.{lookup, insert, lookup-insert, lookup-remove}
use aegis_ai_gateway.Fallback.{
  ProviderHealth, BreakerEntry, CircuitState, closed, opened, half_open, entry_state, state_since,
  state, roll_window, succeed, fail, entry_of, record_success, record_failure, claim_probe,
  try_probe, reset, consecutive_failures, saturating_succ, u32_max, failure_threshold,
  default_entry,
}

-- A run of a process on its clock: the health that its calls have left.
pub data Reaches : ProviderHealth → ℕ → Type 0 where
  start : (t : ℕ) → Reaches [] t
  success :
      {h : ProviderHealth} {t : ℕ} (now : ℕ) (p : Text)
      → Reaches h t
      → t ≤ now
      → Reaches (record_success now p h) now
  failure :
      {h : ProviderHealth} {t : ℕ} (now : ℕ) (p : Text)
      → Reaches h t
      → t ≤ now
      → Reaches (record_failure now p h).1 now
  probe :
      {h : ProviderHealth} {t : ℕ} (now : ℕ) (p : Text)
      → Reaches h t
      → t ≤ now
      → Reaches (try_probe now p h).1 now
  reset_one : {h : ProviderHealth} {t : ℕ} (p : Text) → Reaches h t → Reaches (reset p h) t

-- The circuit has an opening time exactly if the failures in a row reached the threshold.
unfoldable pub IsConsistent : Option ℕ → ℕ → Type 0
IsConsistent none failures = failures < failure_threshold
IsConsistent (some _) failures = failure_threshold ≤ failures

abbrev pub Consistent : BreakerEntry → Type 0
Consistent e = IsConsistent e.opened_at e.consecutive_failures

abbrev pub AllConsistent : ProviderHealth → Type 0
AllConsistent h = (p : Text) → Consistent (entry_of h p)

pub entry_of-insert :
    (p q : Text) (e : BreakerEntry) (h : ProviderHealth)
    → entry_of (insert p e h) q ≡ (if text_eq p q then e else entry_of h q)
unfolding entry_of
entry_of-insert p q e h =
    rw (entry_of, lookup-insert p q e h)
      (elim (Bool-cases (text_eq p q)) [ inl same ↦ rw same refl | inr other ↦ rw other refl ])

insert-Consistent :
    (p : Text) (e : BreakerEntry) (h : ProviderHealth)
    → Consistent e
    → AllConsistent h
    → AllConsistent (insert p e h)
insert-Consistent p e h he hh q =
    rw (entry_of-insert p q e h)
      (elim (Bool-cases (text_eq p q)) [ inl same ↦ rw same he | inr other ↦ rw other (hh q) ])

pub roll_window_keeps :
    (now : ℕ) (e : BreakerEntry)
    → ((roll_window now e).opened_at ≡ e.opened_at)
      × ((roll_window now e).consecutive_failures ≡ e.consecutive_failures)
unfolding roll_window
roll_window_keeps now e = ground arith

one_more_failure :
    (o : Option ℕ) (failures now : ℕ)
    → IsConsistent o failures
    → IsConsistent
        (if leb failure_threshold (min (failures + 1) u32_max) then some now else o)
        (min (failures + 1) u32_max)
unfolding IsConsistent
one_more_failure none f now h = ground arith
one_more_failure (some since) f now h =
    let reached : leb failure_threshold (min (f + 1) u32_max) ≡ true = ground arith in
    rw reached (omega arith)

fail-Consistent : (now : ℕ) (e : BreakerEntry) → Consistent e → Consistent (fail now e)
unfolding fail saturating_succ
fail-Consistent now e h =
    rw ((roll_window_keeps now e).0, (roll_window_keeps now e).1)
      (one_more_failure e.opened_at e.consecutive_failures now h)

succeed-Consistent : (now : ℕ) (e : BreakerEntry) → Consistent (succeed now e)
unfolding succeed IsConsistent
succeed-Consistent now e = omega arith

default-Consistent : Consistent default_entry
unfolding IsConsistent
default-Consistent = omega arith

claim-Consistent :
    (st : CircuitState) (p : Text) (h : ProviderHealth)
    → AllConsistent h
    → AllConsistent (claim_probe st p h).1
unfolding claim_probe
claim-Consistent closed p h all = all
claim-Consistent opened p h all = all
claim-Consistent half_open p h all =
    let e = entry_of h p in
    elim (Bool-cases e.probing) [
      | inl taken ↦ rw taken (insert-Consistent p e h (all p) all)
      | inr free ↦ rw free (insert-Consistent p (record e { probing = true }) h (all p) all)
    ]

reset-Consistent : (p : Text) (h : ProviderHealth) → AllConsistent h → AllConsistent (reset p h)
unfolding reset entry_of
reset-Consistent p h all q =
    rw (entry_of, lookup-remove p q h)
      (elim (Bool-cases (text_eq p q)) [
        | inl same ↦ rw same default-Consistent
        | inr other ↦ rw other (all q)
      ])

pub Reaches-Consistent : {h : ProviderHealth} {t : ℕ} → Reaches h t → AllConsistent h
unfolding entry_of record_success record_failure try_probe lookup
Reaches-Consistent (start t) = λ p. default-Consistent
Reaches-Consistent (success {h = h} now p r later) =
    insert-Consistent p (succeed now (entry_of h p)) h (succeed-Consistent now (entry_of h p))
      (Reaches-Consistent r)
Reaches-Consistent (failure {h = h} now p r later) =
    insert-Consistent p (fail now (entry_of h p)) h
      (fail-Consistent now (entry_of h p) (Reaches-Consistent r p)) (Reaches-Consistent r)
Reaches-Consistent (probe {h = h} now p r later) =
    claim-Consistent (state h now p) p h (Reaches-Consistent r)
Reaches-Consistent (reset_one {h = h} p r) = reset-Consistent p h (Reaches-Consistent r)

pub state-entry_of :
    (h : ProviderHealth) (now : ℕ) (p : Text)
    → state h now p ≡ state_since now (entry_of h p).opened_at
unfolding state entry_of entry_state state_since
state-entry_of h now p = elim (Option-cases (lookup p h)) [
  | inl e ↦ rw (state, entry_of, e) refl
  | inr (x, e) ↦ rw (state, entry_of, e) refl
]

pub failures-entry_of :
    (h : ProviderHealth) (p : Text) → consecutive_failures h p ≡ (entry_of h p).consecutive_failures
unfolding consecutive_failures entry_of
failures-entry_of h p = elim (Option-cases (lookup p h)) [
  | inl e ↦ rw (consecutive_failures, entry_of, e) refl
  | inr (x, e) ↦ rw (consecutive_failures, entry_of, e) refl
]

closed_since :
    (now failures : ℕ) (o : Option ℕ)
    → IsConsistent o failures
    → (state_since now o ≡ closed) ↔ (failures < failure_threshold)
unfolding state_since IsConsistent
closed_since now failures none c = (λ e. c, λ small. refl)
closed_since now failures (some since) c = ground arith

-- Whatever the calls so far, a provider's circuit is closed exactly while it has had fewer than five
-- failures in a row.
pub closed_iff_under_threshold :
    {h : ProviderHealth} {t : ℕ} (now : ℕ) (p : Text)
    → Reaches h t
    → (state h now p ≡ closed) ↔ (consecutive_failures h p < failure_threshold)
closed_iff_under_threshold {h = h} now p r =
    rw (state-entry_of h now p, failures-entry_of h p)
      (closed_since now (entry_of h p).consecutive_failures (entry_of h p).opened_at
        (Reaches-Consistent r p))
