-- ===== src/Store/Counters.antt =====
-- What the clients of a store rely on where they keep counters in it: the interface between the
-- budget and usage modules and any `KvStore`.
use aegis_ai_gateway.Prelude.{ℕ, ◌^◌, ◌<◌, ◌≡◌, Option, none, some, if◌then◌else◌}
use aegis_ai_gateway.Int.{ℤ, pos}
use aegis_ai_gateway.Int.I64.{InI64, saturating_add}
use aegis_ai_gateway.Error.{Result, ok, err}
use aegis_ai_gateway.Text.{Text, text_eq}
use aegis_ai_gateway.Text.Decimal.{parse}
use aegis_ai_gateway.Store.{KvStore}

-- `.ok().flatten().and_then(|v| v.parse::<i64>().ok()).unwrap_or(0)`
unfoldable pub read_number : Result (Option Text) → ℤ
read_number (err e) = pos 0
read_number (ok none) = pos 0
read_number (ok (some text)) = elim (parse text) [ none ↦ pos 0 | some n ↦ n ]

-- A state in which the store answers, and the number that it holds at each key.
pub record Counters (S : Type 0) ⦃k : KvStore S⦄ : Type 1 where
  pub IsUp : S → Type 0
  pub counter : Text → S → ℤ
  pub counter_in_range : (j : Text) (s : S) → IsUp s → InI64 (counter j s)
  pub get_number : (j : Text) (s : S) → IsUp s → read_number (k.get j s).0 ≡ counter j s
  pub get_keeps : (i j : Text) (s : S) → IsUp s → counter j (k.get i s).1 ≡ counter j s
  pub get_up : (j : Text) (s : S) → IsUp s → IsUp (k.get j s).1
  pub incr_total :
      (i : Text) (by : ℤ) (ttl : ℕ) (s : S)
      → IsUp s
      → 0 < ttl
      → ttl < 2 ^ 40
      → (k.incr_by i by (some ttl) s).0 ≡ ok (saturating_add (counter i s) by)
  pub incr_counter :
      (i j : Text) (by : ℤ) (ttl : ℕ) (s : S)
      → IsUp s
      → 0 < ttl
      → ttl < 2 ^ 40
      → counter j (k.incr_by i by (some ttl) s).1
        ≡ (if text_eq i j then saturating_add (counter i s) by else counter j s)
  pub incr_up :
      (i : Text) (by : ℤ) (ttl : ℕ) (s : S) → IsUp s → IsUp (k.incr_by i by (some ttl) s).1
  pub append_answers :
      (stream payload : Text) (max_len : ℕ) (s : S)
      → IsUp s
      → (id : Text) × ((k.stream_append stream payload max_len s).0 ≡ ok id)
  pub append_keeps :
      (stream payload : Text) (max_len : ℕ) (j : Text) (s : S)
      → IsUp s
      → counter j (k.stream_append stream payload max_len s).1 ≡ counter j s
  pub append_up :
      (stream payload : Text) (max_len : ℕ) (s : S)
      → IsUp s
      → IsUp (k.stream_append stream payload max_len s).1
