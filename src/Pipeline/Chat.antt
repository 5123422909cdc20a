-- ===== src/Pipeline/Chat.antt =====
-- apps/gateway/src/routes/openai_compat.rs: what the chat handler does to the budgets before the
-- pipeline runs and behind it. The limits that `load_limits` finds, the fresh ids, `Utc::now()` and
-- serde_json are arguments; metrics, logs and the response's body and headers are left out.
pub mod Spend
use aegis_ai_gateway.Prelude.{ℕ, Option, some}
use aegis_ai_gateway.Auth.{AuthContext}
use aegis_ai_gateway.Budget.{
  Reservation, BudgetOutcome, allowed, denied, check_and_reserve, denial_to_error, release, commit,
}
use aegis_ai_gateway.Budget.Headroom.{headroom_mc, project_tokens}
use aegis_ai_gateway.Error.{Result, ok, err, AegisError}
use aegis_ai_gateway.Int.{ℤ}
use aegis_ai_gateway.Limits.{BudgetLimits}
use aegis_ai_gateway.Panic.{Run, returns, ◌>>=◌}
use aegis_ai_gateway.Pipeline.{PipelineOutcome, usage_event, project_cost}
use aegis_ai_gateway.Pricing.Names.{PricingTable}
use aegis_ai_gateway.Store.{KvStore}
use aegis_ai_gateway.Text.{Text, codes}
use aegis_ai_gateway.Types.Request.{NormalizedRequest, estimated_input_tokens}
use aegis_ai_gateway.Usage.{UsageEvent, Uuid, Month, emit}
use aegis_ai_gateway.Usage.Event.{rejected_event}

-- Leave to proceed with what the router may spend, or the refusal.
pub data Reserved : Type 0 where
  granted : Reservation → (headroom : Option ℤ) → Reserved
  refused : AegisError → Reserved

-- The event of a served request, with what was held for it.
unfoldable pub settled_event :
    PipelineOutcome → AuthContext → (region : Text) → (now : Month) → Reservation → UsageEvent
unfolding usage_event
settled_event o auth region now r = record (usage_event o auth 200 region now) {
  reserved_tokens = r.reserved_tokens;
  reserved_mc = commit r;
}

module _ {S : Type 0} ⦃k : KvStore S⦄ (to_json : UsageEvent → Result Text) where
  -- The result of `emit` only decides what is logged.
  unfoldable pub record_rejection_for_model :
      (request_id : Uuid)
      → AuthContext
      → (model : Text) → (status : ℕ) → (error_type : Text) → (now : Month) → S
      → S
  record_rejection_for_model request_id auth model status error_type now s =
      let event =
        rejected_event request_id auth.org_id auth.api_key_id model status error_type 0 now in
      (emit to_json event s).1

  unfoldable pub after_check :
      (request_id : Uuid)
      → AuthContext
      → BudgetLimits
      → (region model : Text) → (now : Month) → BudgetOutcome × S
      → Reserved × S
  unfolding record_rejection_for_model
  after_check request_id auth limits region model now (allowed r, s) =
      let (headroom, s1) = headroom_mc auth limits (some region) now s in (granted r headroom, s1)
  after_check request_id auth limits region model now (denied breaches, s) = (
    refused (denial_to_error breaches),
    record_rejection_for_model request_id auth model 402 (codes "budget_exceeded") now s,
  )

  unfoldable pub reserve_budget :
      PricingTable
      → (request_id : Uuid) → AuthContext
      → NormalizedRequest
      → BudgetLimits
      → (region : Text) → (now : Month) → S
      → Run (Reserved × S)
  unfolding after_check
  reserve_budget pricing request_id auth request limits region now s =
      project_cost request pricing >>= λ projected. returns (
        after_check request_id auth limits region request.model now (
          check_and_reserve auth limits (some region) projected
            (project_tokens (estimated_input_tokens request) request.max_tokens) now s))

  -- What the handler does with the result of the pipeline.
  unfoldable pub finish_chat :
      AuthContext
      → (region : Text) → (now : Month) → Reservation
      → Result PipelineOutcome × S
      → Result PipelineOutcome × S
  unfolding settled_event
  finish_chat auth region now r (err e, s) = (err e, release r s)
  finish_chat auth region now r (ok o, s) =
      (ok o, (emit to_json (settled_event o auth region now r) s).1)
