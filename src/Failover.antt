-- ===== src/Failover.antt =====
-- apps/gateway/src/routes/openai_compat.rs: one request tried on the chain of models, with retries in
-- each attempt, and providers/mod.rs: the registry of adapters. The adapters call other programs:
-- what they answer is `Upstream`, over a state of the outside world that a call or a pause may move
-- on. Logs and metrics are left out.
pub mod Retries
pub mod Alternates
pub mod Answers
pub mod Refused
pub mod Attempts
pub mod Probe
mod Tests
use aegis_ai_gateway.Prelude.{
  ℕ, zero, suc, ◌+◌, ◌-◌, Bool, true, false, not, ◌||◌, Option, none, some, List, [], ◌∷◌, ◌++◌,
  any, find?, ltb, ◌==◌, if◌then◌else◌,
}
use aegis_ai_gateway.Error.{
  AegisError, provider, internal, crypto, all_providers_failed, Result, ok, err,
}
use aegis_ai_gateway.Text.{Text, codes, text_eq, split_once, starts_with}
use aegis_ai_gateway.Table.{Table}
use aegis_ai_gateway.Types.Request.{NormalizedRequest, contains}
use aegis_ai_gateway.Types.Response.{NormalizedResponse}
use aegis_ai_gateway.Usage.{Uuid}
use aegis_ai_gateway.KeyPool.{Credential, new_credential, with_base_url, Keys, next_credential}
use aegis_ai_gateway.Fallback.{
  ProviderHealth, is_available, try_probe, record_success, record_failure, is_retryable,
  retry_delay, FallbackAttempt,
}

abbrev pub max_retries : ℕ
max_retries = 2

-- What the registry reads of an adapter.
pub record Adapter : Type 0 where
  pub id : Text
  pub supported_models : List Text

-- The columns that the gateway reads.
pub record ProviderCredential : Type 0 where
  pub encrypted_key : Text
  pub base_url : Option Text

-- What decrypting a stored key comes to.
pub data Decrypted : Type 0 where
  undecryptable not_utf8 : Decrypted
  plaintext : Text → Decrypted

-- What the gateway asks of the outside world: the clock, pauses, fresh ids, the providers, and the
-- credentials of an organisation, if there is a database.
pub record Upstream (E : Type 0) : Type 0 where
  pub now : E → ℕ
  pub sleep : ℕ → E → E
  pub new_uuid : E → Text × E
  pub chat :
      (adapter : Text)
      → NormalizedRequest
      → (model : Text) → Credential
      → (timeout : ℕ) → (idempotency_key : Text) → E
      → Result NormalizedResponse × E
  pub find_default_credential : Option (Uuid → Text → E → Result (Option ProviderCredential) × E)
  pub decrypt : Text → Decrypted

-- What does not change while requests are served.
pub record Gateway : Type 0 where
  pub adapters : List Adapter
  pub shared_provider_keys : Keys
  pub provider_timeout : ℕ
  pub provider_timeout_reasoning : ℕ

pub record World (E : Type 0) : Type 0 where
  pub health : ProviderHealth
  pub cursors : Table ℕ
  pub outside : E

-- The name behind the first slash, or the whole name.
unfoldable pub bare_model : Text → Text
bare_model model = elim (split_once b'/' model) [ none ↦ model | some (_, m) ↦ m ]

unfoldable pub supports : Text → Adapter → Bool
unfolding bare_model
supports model a = any (text_eq (bare_model model)) a.supported_models

unfoldable pub get_adapter : Text → List Adapter → Option Adapter
get_adapter id = find? (λ a. text_eq a.id id)

-- The adapter that the prefix of the model names, or else one that supports the model.
unfoldable pub for_model : List Adapter → Text → Option Text
unfolding get_adapter supports
for_model adapters model =
    let claimed : Option Text = elim (find? (supports model) adapters) [
      | none ↦ none
      | some a ↦ some a.id
    ] in
    elim (split_once b'/' model) [
      | none ↦ claimed
      | some (id, _) ↦ elim (get_adapter id adapters) [ none ↦ claimed | some a ↦ some a.id ]
    ]

unfoldable pub is_reasoning_model : Text → Bool
unfolding bare_model
is_reasoning_model model =
    starts_with (codes "o") (bare_model model)
    || contains (codes "reasoner") (bare_model model)
    || contains (codes "thinking") (bare_model model)

-- A chat's answer that the gateway does not try elsewhere.
unfoldable pub is_bad_request : AegisError → Bool
is_bad_request (provider _ status _) = status == 400
is_bad_request _ = false

-- What became of one attempt of the chain.
pub data Tried : Type 0 where
  skipped : Tried
  failed refused : AegisError → Tried
  answered : NormalizedResponse → (provider_id : Text) → Tried

pub record Served : Type 0 where
  pub response : NormalizedResponse
  pub model_id : Text
  pub provider_id : Text
  pub used_fallback : Bool

module _ {E : Type 0} (u : Upstream E) where
  -- A failed try is tried again after a pause while tries are left and the error is passing.
  unfoldable pub after_try {ℓ} :
      {R : Type ℓ} → (E → Result R × E) → (attempt : ℕ) → Result R × E → Result R × E
  after_try again attempt (ok r, e) = (ok r, e)
  after_try again attempt (err x, e) =
      if is_retryable x then again (u.sleep (retry_delay attempt) e) else (err x, e)

  -- `left` tries may follow this one; the retries count from one.
  unfoldable pub retrying {ℓ} : {R : Type ℓ} → (E → Result R × E) → (left : ℕ) → E → Result R × E
  unfolding after_try
  retrying call zero e = call e
  retrying call (suc left) e = after_try (retrying call left) (max_retries - left) (call e)

  module _ (g : Gateway) where
    unfoldable pub timeout_of : Text → ℕ
    timeout_of model =
        if is_reasoning_model model then g.provider_timeout_reasoning else g.provider_timeout

    unfoldable pub call_with_retries :
        (adapter : Text)
        → NormalizedRequest
        → (model : Text) → Credential
        → E
        → Result NormalizedResponse × E
    unfolding retrying timeout_of
    call_with_retries adapter request model credential e =
        let (uuid, e1) = u.new_uuid e in
        retrying
          (u.chat adapter request model credential (timeout_of model) (codes "aegis-" ++ uuid))
          max_retries e1

    unfoldable pub shared_credential : Text → World E → Result Credential × World E
    shared_credential adapter w =
        let (c, cursors) = next_credential g.shared_provider_keys adapter w.cursors in
        (c, record w { cursors = cursors })

    unfoldable pub credential_of : ProviderCredential → Decrypted → Result Credential
    credential_of stored undecryptable = err (internal "stored credential could not be decrypted")
    credential_of stored not_utf8 = err crypto
    credential_of stored (plaintext key) =
        ok (elim stored.base_url [ none ↦ new_credential key | some url ↦ with_base_url key url ])

    -- The organisation's own key first, the gateway's second.
    unfoldable pub with_stored :
        (adapter : Text)
        → Result (Option ProviderCredential)
        → World E
        → Result Credential × World E
    unfolding shared_credential credential_of
    with_stored adapter (err x) w = (err x, w)
    with_stored adapter (ok none) w = shared_credential adapter w
    with_stored adapter (ok (some stored)) w =
        (credential_of stored (u.decrypt stored.encrypted_key), w)

    unfoldable pub resolve_credential : Uuid → Text → World E → Result Credential × World E
    unfolding with_stored
    resolve_credential org_id adapter w = elim u.find_default_credential [
      | none ↦ shared_credential adapter w
      | some find ↦
          let (found, e) = find org_id adapter w.outside in
          with_stored adapter found (record w { outside = e })
    ]

    module _ (org_id : Uuid) (request : NormalizedRequest) where
      -- The circuit learns how the call ended.
      unfoldable pub learn :
          (adapter : Text) → Result NormalizedResponse × E → World E → Tried × World E
      learn adapter (ok response, e) w = (
        answered response adapter,
        record w { outside = e; health = record_success (u.now e) adapter w.health },
      )
      learn adapter (err x, e) w = (
        (if is_bad_request x then refused x else failed x),
        record w { outside = e; health = (record_failure (u.now e) adapter w.health).1 },
      )

      unfoldable pub call_with :
          (model adapter : Text) → Result Credential × World E → Tried × World E
      unfolding learn
      call_with model adapter (err x, w) = (failed x, w)
      call_with model adapter (ok credential, w) =
          learn adapter (call_with_retries adapter request model credential w.outside) w

      unfoldable pub probed :
          (model adapter : Text) → Bool × ProviderHealth → World E → Tried × World E
      unfolding call_with
      probed model adapter (false, h) w = (skipped, record w { health = h })
      probed model adapter (true, h) w =
          call_with model adapter (resolve_credential org_id adapter (record w { health = h }))

      unfoldable pub try_on : (model adapter : Text) → World E → Tried × World E
      unfolding probed
      try_on model adapter w =
          if is_available w.health (u.now w.outside) adapter
          then probed model adapter (try_probe (u.now w.outside) adapter w.health) w
          else (skipped, w)

      -- The body of the loop over the chain.
      unfoldable pub try_attempt : FallbackAttempt → World E → Tried × World E
      unfolding try_on
      try_attempt a w = elim (for_model g.adapters a.model_id) [
        | none ↦ (skipped, w)
        | some adapter ↦ try_on a.model_id adapter w
      ]

      unfoldable pub or_all_failed : Option AegisError → AegisError
      or_all_failed none = all_providers_failed "no configured provider could serve this request"
      or_all_failed (some x) = x

      -- What follows an attempt: the end of the loop, or the rest of the chain.
      unfoldable pub then_next :
          (model : Text)
          → (index : ℕ) → (rest : Option AegisError → World E → Result Served × World E)
          → Option AegisError
          → Tried × World E
          → Result Served × World E
      then_next model index rest last (answered r adapter, w) = (
        ok record {
          response = r;
          model_id = model;
          provider_id = adapter;
          used_fallback = ltb 0 index;
        },
        w,
      )
      then_next model index rest last (refused x, w) = (err x, w)
      then_next model index rest last (failed x, w) = rest (some x) w
      then_next model index rest last (skipped, w) = rest last w

      unfoldable pub try_from :
          (index : ℕ) → Option AegisError → List FallbackAttempt → World E → Result Served × World E
      unfolding try_attempt or_all_failed then_next
      try_from index last [] w = (err (or_all_failed last), w)
      try_from index last (a ∷ rest) w =
          then_next a.model_id index (λ l. try_from (index + 1) l rest) last (try_attempt a w)

      unfoldable pub execute_with_fallback :
          List FallbackAttempt → World E → Result Served × World E
      unfolding try_from
      execute_with_fallback chain w = try_from 0 none chain w
