-- ===== src/Fallback.antt =====
-- apps/gateway/src/engine/fallback.rs: the circuit breakers of the providers, the retry policy and
-- the fallback chain. Times are in milliseconds, `Instant::now()` and `elapsed` are the argument
-- `now`. The smoothed latency, a floating-point number, is left out, and with it `score`.
pub mod Breaker
pub mod Circuit
pub mod Chain
mod Tests
use aegis_ai_gateway.Prelude.{
  ℕ, ◌+◌, ◌-◌, ◌*◌, ◌^◌, Bool, true, false, not, ◌&&◌, ◌||◌, List, [], ◌∷◌, ◌++◌, map, Option, none,
  some, if◌then◌else◌, ltb, leb, ◌==◌, min, any, length,
}
use aegis_ai_gateway.Error.{AegisError, provider, provider_timeout, store}
use aegis_ai_gateway.Text.{Text, text_eq}
use aegis_ai_gateway.Table.{Table, lookup, insert, remove}

abbrev pub failure_threshold : ℕ
failure_threshold = 5

abbrev pub open_duration : ℕ
open_duration = 30000

abbrev pub health_window : ℕ
health_window = 120000

abbrev pub retry_base_delay : ℕ
retry_base_delay = 100

abbrev pub u32_max : ℕ
u32_max = 4294967295

pub data CircuitState : Type 0 where
  closed opened half_open : CircuitState

pub record BreakerEntry : Type 0 where
  pub consecutive_failures : ℕ
  pub opened_at : Option ℕ
  pub probing : Bool
  pub recent_successes : ℕ
  pub recent_failures : ℕ
  pub window_started : Option ℕ

abbrev pub default_entry : BreakerEntry
default_entry = record {
  consecutive_failures = 0;
  opened_at = none;
  probing = false;
  recent_successes = 0;
  recent_failures = 0;
  window_started = none;
}

abbrev pub ProviderHealth : Type 0
ProviderHealth = Table BreakerEntry

saturating_succ : ℕ → ℕ
saturating_succ n = min (n + 1) u32_max

-- The state of a circuit by its opening time, and of one entry.
unfoldable pub state_since : ℕ → Option ℕ → CircuitState
state_since now none = closed
state_since now (some since) = if leb open_duration (now - since) then half_open else opened

unfoldable pub entry_state : ℕ → BreakerEntry → CircuitState
unfolding state_since
entry_state now e = state_since now e.opened_at

unfoldable pub state : ProviderHealth → ℕ → Text → CircuitState
unfolding entry_state
state h now name = elim (lookup name h) [ none ↦ closed | some e ↦ entry_state now e ]

unfoldable pub lets_through : CircuitState → Bool
lets_through opened = false
lets_through _ = true

unfoldable pub is_available : ProviderHealth → ℕ → Text → Bool
unfolding state lets_through
is_available h now name = lets_through (state h now name)

unfoldable pub roll_window : ℕ → BreakerEntry → BreakerEntry
roll_window now e = elim e.window_started [
  | none ↦ record e { window_started = some now; recent_successes = 0; recent_failures = 0 }
  | some started ↦
      if leb health_window (now - started)
      then record e { window_started = some now; recent_successes = 0; recent_failures = 0 }
      else e
]

unfoldable pub succeed : ℕ → BreakerEntry → BreakerEntry
unfolding roll_window saturating_succ
succeed now e =
    let rolled = roll_window now e in
    record rolled {
      consecutive_failures = 0;
      opened_at = none;
      probing = false;
      recent_successes = saturating_succ rolled.recent_successes;
    }

unfoldable pub fail : ℕ → BreakerEntry → BreakerEntry
unfolding roll_window saturating_succ
fail now e =
    let rolled = roll_window now e in
    let failures = saturating_succ rolled.consecutive_failures in
    record rolled {
      consecutive_failures = failures;
      recent_failures = saturating_succ rolled.recent_failures;
      probing = false;
      opened_at = if leb failure_threshold failures then some now else rolled.opened_at;
    }

-- `entry(provider).or_default()`
unfoldable pub entry_of : ProviderHealth → Text → BreakerEntry
entry_of h name = elim (lookup name h) [ none ↦ default_entry | some e ↦ e ]

unfoldable pub record_success : ℕ → Text → ProviderHealth → ProviderHealth
unfolding succeed entry_of
record_success now name h = insert name (succeed now (entry_of h name)) h

unfoldable pub record_failure : ℕ → Text → ProviderHealth → CircuitState × ProviderHealth
unfolding fail entry_of
record_failure now name h =
    let e = fail now (entry_of h name) in
    (if leb failure_threshold e.consecutive_failures then opened else closed, insert name e h)

-- What `try_probe` does in a state: only a half-open circuit has a slot to claim.
unfoldable pub claim_probe : CircuitState → Text → ProviderHealth → Bool × ProviderHealth
unfolding entry_of
claim_probe closed name h = (true, h)
claim_probe opened name h = (true, h)
claim_probe half_open name h =
    let e = entry_of h name in
    if e.probing
    then (false, insert name e h)
    else (true, insert name (record e { probing = true }) h)

unfoldable pub try_probe : ℕ → Text → ProviderHealth → Bool × ProviderHealth
unfolding state claim_probe
try_probe now name h = claim_probe (state h now name) name h

unfoldable pub consecutive_failures : ProviderHealth → Text → ℕ
consecutive_failures h name = elim (lookup name h) [ none ↦ 0 | some e ↦ e.consecutive_failures ]

unfoldable pub reset : Text → ProviderHealth → ProviderHealth
reset name h = remove name h

unfoldable pub is_retryable : AegisError → Bool
is_retryable (provider_timeout _) = true
is_retryable (provider _ status _) =
    status == 429 || status == 408 || (leb 500 status && ltb status 600)
is_retryable (store _) = true
is_retryable _ = false

-- Attempts count from one.
unfoldable pub retry_delay : ℕ → ℕ
retry_delay attempt = retry_base_delay * min (4 ^ (attempt - 1)) u32_max

pub record FallbackAttempt : Type 0 where
  pub model_id : Text
  pub provider : Text
  pub is_fallback : Bool

-- `attempts.iter().any(|a| a.model_id == model)`
unfoldable pub has_model : Text → List FallbackAttempt → Bool
has_model model = any (λ a. text_eq a.model_id model)

-- Appends a model that is not there yet.
unfoldable pub push_new : Text × Text → List FallbackAttempt → List FallbackAttempt
unfolding has_model
push_new (model, name) attempts =
    if has_model model attempts
    then attempts
    else attempts ++ record { model_id = model; provider = name; is_fallback = true } ∷ []

unfoldable pub push_alternates : List (Text × Text) → List FallbackAttempt → List FallbackAttempt
unfolding push_new
push_alternates [] attempts = attempts
push_alternates (a ∷ as') attempts = push_alternates as' (push_new a attempts)

-- The attempts of `FallbackChain::build`: the selected model, the alternates, the requested one.
unfoldable pub build : Text × Text → Text × Text → List (Text × Text) → List FallbackAttempt
unfolding push_alternates
build selected requested alternates = push_new requested (
    push_alternates alternates
      (record { model_id = selected.0; provider = selected.1; is_fallback = false } ∷ []))
