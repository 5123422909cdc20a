-- ===== src/Failover/Refused.antt =====
-- apps/gateway/src/routes/openai_compat.rs: what stands behind an attempt that ends the loop with an
-- error, and behind one that failed.
use aegis_ai_gateway.Prelude.{
  ◌≡◌, ap, String, Bool, true, false, ==_iff, Bool-cases, Option-cases, inl, inr,
}
use aegis_ai_gateway.Error.{AegisError, provider, Result, ok, err}
use aegis_ai_gateway.Text.{Text}
use aegis_ai_gateway.Types.Request.{NormalizedRequest}
use aegis_ai_gateway.Types.Response.{NormalizedResponse}
use aegis_ai_gateway.Usage.{Uuid}
use aegis_ai_gateway.KeyPool.{Credential}
use aegis_ai_gateway.Fallback.{FallbackAttempt, ProviderHealth, is_available, try_probe}
use aegis_ai_gateway.Failover.{
  Upstream, Gateway, World, Tried, skipped, failed, refused, answered, is_bad_request, try_attempt,
  for_model, call_with_retries, learn, call_with, probed, try_on, resolve_credential,
}

-- The provider met the request with the status 400.
abbrev pub IsStatus400 : AegisError → Type 0
IsStatus400 x = (id : String) × (message : String) × (x ≡ provider id 400 message)

status_of_bad_request : (x : AegisError) → is_bad_request x ≡ true → IsStatus400 x
unfolding is_bad_request
status_of_bad_request (provider id status message) h =
    (id, message, ap (λ n. provider id n message) ((==_iff status 400).0 h))
status_of_bad_request _ h = cc

-- An attempt ends the loop with an error only if that has the status 400.
abbrev pub IsFair : Tried → Type 0
IsFair (refused x) = IsStatus400 x
IsFair skipped = Unit
IsFair (failed x) = Unit
IsFair (answered r id) = Unit

module _ {E : Type 0} (u : Upstream E) (g : Gateway) (org_id : Uuid)
    (request : NormalizedRequest) where
  learn-IsFair :
      (adapter : Text) (out : Result NormalizedResponse × E) (w : World E)
      → IsFair (learn u g org_id request adapter out w).0
  unfolding learn
  learn-IsFair adapter (ok r, e) w = tt
  learn-IsFair adapter (err x, e) w = elim (Bool-cases (is_bad_request x)) [
    | inl b ↦ rw b (status_of_bad_request x b)
    | inr b ↦ rw b tt
  ]

  call_with-IsFair :
      (model adapter : Text) (out : Result Credential × World E)
      → IsFair (call_with u g org_id request model adapter out).0
  unfolding call_with
  call_with-IsFair model adapter (err x, w) = tt
  call_with-IsFair model adapter (ok credential, w) =
      learn-IsFair adapter (call_with_retries u g adapter request model credential w.outside) w

  probed-IsFair :
      (model adapter : Text) (out : Bool × ProviderHealth) (w : World E)
      → IsFair (probed u g org_id request model adapter out w).0
  unfolding probed
  probed-IsFair model adapter (false, h) w = tt
  probed-IsFair model adapter (true, h) w =
      call_with-IsFair model adapter
        (resolve_credential u g org_id adapter (record w { health = h }))

  try_on-IsFair :
      (model adapter : Text) (w : World E) → IsFair (try_on u g org_id request model adapter w).0
  unfolding try_on
  try_on-IsFair model adapter w =
      elim (Bool-cases (is_available w.health (u.now w.outside) adapter)) [
        | inl up ↦
            rw up (probed-IsFair model adapter (try_probe (u.now w.outside) adapter w.health) w)
        | inr down ↦ rw down tt
      ]

  pub try_attempt-IsFair :
      (a : FallbackAttempt) (w : World E) → IsFair (try_attempt u g org_id request a w).0
  unfolding try_attempt
  try_attempt-IsFair a w = elim (Option-cases (for_model g.adapters a.model_id)) [
    | inl missing ↦ rw (try_attempt, missing) tt
    | inr (adapter, found) ↦ rw (try_attempt, found) (try_on-IsFair a.model_id adapter w)
  ]
