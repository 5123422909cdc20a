-- ===== src/Store.antt =====
-- apps/gateway/src/store.rs: the hot-path key/value store. `KvStore` is the trait: a client takes it
-- as an instance, over a state that holds the store and the clock that it reads. Redis is another
-- program; `MemoryStore` is modelled in `Store.Memory`. `ping` and `backend_name` are left out.
pub mod Counters
pub mod Memory
use aegis_ai_gateway.Prelude.{ℕ, Bool, List, Option}
use aegis_ai_gateway.Int.{ℤ}
use aegis_ai_gateway.Error.{Result}
use aegis_ai_gateway.Text.{Text}

pub record RateLimitOutcome : Type 0 where
  pub allowed : Bool
  pub remaining : ℕ
  pub retry_after_secs : ℕ

pub record StreamEntry : Type 0 where
  pub id : Text
  pub payload : Text

-- Times to live and windows are in milliseconds.
pub record KvStore (S : Type 0) : Type 0 where
  pub get : Text → S → Result (Option Text) × S
  pub set_ex : Text → Text → ℕ → S → Result (Unit {0}) × S
  pub del : Text → S → Result Bool × S
  pub del_prefix : Text → S → Result ℕ × S
  pub incr_by : Text → ℤ → Option ℕ → S → Result ℤ × S
  pub rate_limit : Text → ℕ → ℕ → S → Result RateLimitOutcome × S
  pub stream_append : Text → Text → ℕ → S → Result Text × S
  pub stream_read : Text → Text → ℕ → S → Result (List StreamEntry) × S
