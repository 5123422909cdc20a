-- ===== src/RateLimit.antt =====
-- apps/gateway/src/middleware/rate_limit.rs: the two windows that must admit a request, per key and
-- per organisation, and the window per address. Windows are in milliseconds.
pub mod Check
use text.Mathlib.Text.{◌==◌ as str_eq}
use aegis_ai_gateway.Prelude.{
  ℕ, Bool, true, false, String, Option, none, some, if◌then◌else◌, max, ◌++◌,
}
use aegis_ai_gateway.Error.{Result, ok, err, AegisError, rate_limited, ◌>>=◌}
use aegis_ai_gateway.Text.{Text, codes}
use aegis_ai_gateway.Store.{KvStore, RateLimitOutcome}
use aegis_ai_gateway.Usage.{Uuid}
use aegis_ai_gateway.Auth.{AuthContext}

abbrev pub window : ℕ
window = 60000

unfoldable pub org_limit_for_plan : String → ℕ
org_limit_for_plan plan =
    if str_eq plan "pro"
    then 600
    else if str_eq plan "team"
    then 3000
    else if str_eq plan "enterprise"
    then 10000
    else if str_eq plan "api"
    then 10000
    else 10

unfoldable pub key_window : Uuid → Text
key_window api_key_id = codes "aegis:rl:key:" ++ api_key_id

unfoldable pub org_window : Uuid → Text
org_window org_id = codes "aegis:rl:org:" ++ org_id

unfoldable pub ip_window : Text → Text
ip_window ip = codes "aegis:rl:ip:" ++ ip

pub record RateLimitDecision : Type 0 where
  pub allowed : Bool
  pub limit : ℕ
  pub remaining : ℕ
  pub retry_after_secs : ℕ
  pub scope : String

unfoldable pub into_error : RateLimitDecision → AegisError
into_error d = rate_limited (max d.retry_after_secs 1) d.limit d.scope

unfoldable pub rejected : RateLimitOutcome → ℕ → String → RateLimitDecision
rejected outcome limit scope = record {
  allowed = false;
  limit = limit;
  remaining = 0;
  retry_after_secs = max outcome.retry_after_secs 1;
  scope = scope;
}

-- The decision on an outcome of the last window that is asked.
unfoldable pub last_decision : RateLimitOutcome → ℕ → String → RateLimitDecision
unfolding rejected
last_decision outcome limit scope =
    if outcome.allowed
    then record {
      allowed = true;
      limit = limit;
      remaining = outcome.remaining;
      retry_after_secs = 0;
      scope = scope;
    }
    else rejected outcome limit scope

module _ {S : Type 0} ⦃k : KvStore S⦄ where
  -- Asks one window, and nothing more.
  unfoldable pub check_last : Text → ℕ → String → S → Result RateLimitDecision × S
  unfolding last_decision
  check_last key limit scope s =
      let (answer, s1) = k.rate_limit key limit window s in
      elim answer [
        | err e ↦ (err e, s1)
        | ok outcome ↦ (ok (last_decision outcome limit scope), s1)
      ]

  unfoldable pub check_org : AuthContext → S → Result RateLimitDecision × S
  unfolding check_last org_window org_limit_for_plan
  check_org auth s =
      check_last (org_window auth.org_id) (org_limit_for_plan auth.plan) "organization" s

  -- `check` for a request with a key.
  unfoldable pub check_key : AuthContext → Uuid → S → Result RateLimitDecision × S
  unfolding check_org rejected key_window
  check_key auth api_key_id s =
      let limit = max auth.rate_limit_per_minute 1 in
      let (answer, s1) = k.rate_limit (key_window api_key_id) limit window s in
      elim answer [
        | err e ↦ (err e, s1)
        | ok outcome ↦ elim outcome.allowed [
          | false ↦ (ok (rejected outcome limit "key"), s1)
          | true ↦ check_org auth s1
        ]
      ]

  unfoldable pub check : AuthContext → S → Result RateLimitDecision × S
  unfolding check_org check_key
  check auth s = elim auth.api_key_id [
    | none ↦ check_org auth s
    | some api_key_id ↦ check_key auth api_key_id s
  ]

  unfoldable pub check_ip : Text → ℕ → S → Result RateLimitDecision × S
  unfolding check_last ip_window
  check_ip ip limit s = check_last (ip_window ip) limit "ip" s
