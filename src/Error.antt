-- ===== src/Error.antt =====
-- apps/gateway/src/error.rs: the error type, its wire names and HTTP statuses, and `Result`.
use text.Mathlib.Text.{◌==◌ as str_eq}
use aegis_ai_gateway.Prelude.{
  ℕ, ◌⊎◌, inl, inr, Bool, true, false, ◌&&◌, ◌||◌, ◌≡◌, refl, String, List, leb, ltb, if◌then◌else◌,
}
use aegis_ai_gateway.Int.{ℤ}

pub record BudgetBreach : Type 0 where
  pub scope : String
  pub spend_micro_cents : ℤ
  pub limit_micro_cents : ℤ

-- The payload of `database` is an error of another crate and is left out.
pub data AegisError : Type 0 where
  unauthorized forbidden not_found bad_request : String → AegisError
  rate_limited : ℕ → ℕ → String → AegisError
  budget_exceeded : ℤ → ℤ → List BudgetBreach → AegisError
  model_not_allowed : String → AegisError
  plan_restricted : String → String → AegisError
  payload_too_large totp_required : AegisError
  provider : String → ℕ → String → AegisError
  all_providers_failed service_unavailable : String → AegisError
  provider_timeout : ℕ → AegisError
  database : AegisError
  store : String → AegisError
  crypto : AegisError
  config internal : String → AegisError

unfoldable pub error_type : AegisError → String
error_type (unauthorized _) = "unauthorized"
error_type (forbidden _) = "forbidden"
error_type (not_found _) = "not_found"
error_type (bad_request _) = "invalid_request"
error_type (rate_limited _ _ _) = "rate_limit_exceeded"
error_type (budget_exceeded _ _ _) = "budget_exceeded"
error_type (model_not_allowed _) = "model_not_allowed"
error_type (plan_restricted _ _) = "plan_restricted"
error_type payload_too_large = "payload_too_large"
error_type totp_required = "totp_required"
error_type (provider _ _ _) = "provider_error"
error_type (all_providers_failed _) = "all_providers_failed"
error_type (service_unavailable _) = "service_unavailable"
error_type (provider_timeout _) = "provider_timeout"
error_type _ = "internal_error"

-- `StatusCode::from_u16` accepts 100 to 999.
from_u16_or : ℕ → ℕ → ℕ
from_u16_or status fallback = if leb 100 status && ltb status 1000 then status else fallback

unfoldable pub status : AegisError → ℕ
unfolding from_u16_or
status (unauthorized _) = 401
status (forbidden _) = 403
status (not_found _) = 404
status (bad_request _) = 400
status (rate_limited _ _ _) = 429
status (budget_exceeded _ _ _) = 402
status (model_not_allowed _) = 403
status (plan_restricted _ _) = 403
status payload_too_large = 413
status totp_required = 401
status (provider _ code _) = from_u16_or code 502
status (all_providers_failed _) = 503
status (service_unavailable _) = 503
status (provider_timeout _) = 504
status _ = 500

unfoldable pub is_our_fault : AegisError → Bool
is_our_fault database = true
is_our_fault crypto = true
is_our_fault (config _) = true
is_our_fault (internal _) = true
is_our_fault (store _) = true
is_our_fault (all_providers_failed _) = true
is_our_fault (service_unavailable _) = true
is_our_fault _ = false

pub data Result {ℓ} (A : Type ℓ) : Type ℓ where
  ok : A → Result A
  err : AegisError → Result A

infixl 5 ◌>>=◌
abbrev pub ◌>>=◌ {ℓ κ} : {A : Type ℓ} {B : Type κ} → Result A → (A → Result B) → Result B
ok a >>= f = f a
err e >>= f = err e

-- `Result::ok`
abbrev pub is_ok {ℓ} : {A : Type ℓ} → Result A → Bool
is_ok (ok _) = true
is_ok (err _) = false

-- What a client is told to retry or fix is never counted as the gateway's own failure: an error is
-- the gateway's exactly if its wire name is `internal_error` or one of the two outage names.
pub is_our_fault_iff :
    (e : AegisError)
    → is_our_fault e ≡ (
        str_eq (error_type e) "internal_error"
        || str_eq (error_type e) "all_providers_failed"
        || str_eq (error_type e) "service_unavailable")
unfolding is_our_fault error_type
is_our_fault_iff (unauthorized _) = refl
is_our_fault_iff _ = refl

pub Result-cases {ℓ} :
    {A : Type ℓ} (x : Result A) → ((a : A) × (x ≡ ok a)) ⊎ ((e : AegisError) × (x ≡ err e))
Result-cases (ok a) = inl (a, refl)
Result-cases (err e) = inr (e, refl)
