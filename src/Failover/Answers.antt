-- ===== src/Failover/Answers.antt =====
-- apps/gateway/src/routes/openai_compat.rs: what stands behind the answer of one attempt.
use aegis_ai_gateway.Prelude.{
  ℕ, ◌≡◌, refl, sym, ap, subst, ◌∙◌, arith, Bool, true, false, some, Bool-cases, Option-cases, inl,
  inr, if◌then◌else◌,
}
use aegis_ai_gateway.Error.{Result, ok, err}
use aegis_ai_gateway.Text.{Text}
use aegis_ai_gateway.Types.Request.{NormalizedRequest}
use aegis_ai_gateway.Types.Response.{NormalizedResponse}
use aegis_ai_gateway.Usage.{Uuid}
use aegis_ai_gateway.Text.Equality.{text_eq_refl}
use aegis_ai_gateway.Table.{lookup-insert}
use aegis_ai_gateway.KeyPool.{Credential}
use aegis_ai_gateway.Fallback.{
  FallbackAttempt, ProviderHealth, closed, state, is_available, record_success, succeed, entry_of,
  try_probe,
}
use aegis_ai_gateway.Failover.{
  Upstream, Gateway, World, Tried, skipped, failed, refused, answered, is_bad_request, try_attempt,
  for_model, call_with_retries, learn, call_with, probed, try_on, resolve_credential,
}

module _ {E : Type 0} (u : Upstream E) (g : Gateway) (org_id : Uuid)
    (request : NormalizedRequest) where
  -- The circuit has taken note of the probe, if it is one; the credential is that found for
  -- the adapter, and the call with it and its retries gave the response.
  abbrev pub Called : (model id : Text) → NormalizedResponse → World E → World E → Type 0
  Called model id r v w' =
      (h : ProviderHealth) × (credential : Credential) × (x : World E) × (resolve_credential u g
          org_id id (record v { health = h })
        ≡ (ok credential, x))
      × (call_with_retries u g id request model credential x.outside ≡ (ok r, w'.outside))

  -- An answer: the circuit of the adapter let the request through, the call gave the response, and
  -- the circuit is closed afterwards.
  abbrev pub Answers : FallbackAttempt → World E → NormalizedResponse → Text → World E → Type 0
  Answers a v r id w' =
      (for_model g.adapters a.model_id ≡ some id)
      × (is_available v.health (u.now v.outside) id ≡ true)
      × Called a.model_id id r v w'
      × (state w'.health (u.now w'.outside) id ≡ closed)

  success-closed :
      (now : ℕ) (id : Text) (h : ProviderHealth) → state (record_success now id h) now id ≡ closed
  unfolding record_success state succeed
  success-closed now id h =
      ground (arith, lookup-insert id id (succeed now (entry_of h id)) h, text_eq_refl id)

  learn_answers :
      (adapter id : Text) (r : NormalizedResponse) (out : Result NormalizedResponse × E)
      (v w' : World E)
      → learn u g org_id request adapter out v ≡ (answered r id, w')
      → (adapter ≡ id)
        × (out ≡ (ok r, w'.outside))
        × (w'.health ≡ record_success (u.now w'.outside) id v.health)
  unfolding learn
  learn_answers adapter id r (ok x, e) v w' h =
      let same : answered x adapter ≡ answered r id = ap (λ (o : Tried × World E). o.0) h in
      let place : e ≡ w'.outside = ap (λ (o : Tried × World E). o.1.outside) h in
      let learnt : record_success (u.now e) adapter v.health ≡ w'.health =
        ap (λ (o : Tried × World E). o.1.health) h in
      let response : x ≡ r = cc in
      let name : adapter ≡ id = cc in
      (name, rw (response, place) refl, sym learnt ∙ rw (name, place) refl)
  learn_answers adapter id r (err x, e) v w' h =
      let t : (if is_bad_request x then refused x else failed x) ≡ answered r id =
        ap (λ (o : Tried × World E). o.0) h in
      elim (Bool-cases (is_bad_request x)) [
        | inl b ↦ let clash : refused x ≡ answered r id = rw b at t in absurd cc
        | inr b ↦ let clash : failed x ≡ answered r id = rw b at t in absurd cc
      ]

  call_with_answers :
      (model adapter id : Text) (r : NormalizedResponse) (out : Result Credential × World E)
      (w' : World E)
      → call_with u g org_id request model adapter out ≡ (answered r id, w')
      → (adapter ≡ id)
        × ((credential : Credential) × (x : World E) × (out ≡ (ok credential, x))
            × (call_with_retries u g adapter request model credential x.outside
                ≡ (ok r, w'.outside)))
        × (state w'.health (u.now w'.outside) id ≡ closed)
  unfolding call_with
  call_with_answers model adapter id r (err x, v) w' h =
      let clash : failed x ≡ answered r id = ap (λ (o : Tried × World E). o.0) h in absurd cc
  call_with_answers model adapter id r (ok credential, v) w' h =
      let (name, called, learnt) =
        learn_answers adapter id r
          (call_with_retries u g adapter request model credential v.outside) v w' h in
      (
        name,
        (credential, v, refl, called),
        rw learnt (success-closed (u.now w'.outside) id v.health),
      )

  probed_answers :
      (model adapter id : Text) (r : NormalizedResponse) (out : Bool × ProviderHealth)
      (v w' : World E)
      → probed u g org_id request model adapter out v ≡ (answered r id, w')
      → (adapter ≡ id)
        × Called model adapter r v w'
        × (state w'.health (u.now w'.outside) id ≡ closed)
  unfolding probed
  probed_answers model adapter id r (false, h) v w' q =
      let clash : skipped ≡ answered r id = ap (λ (o : Tried × World E). o.0) q in absurd cc
  probed_answers model adapter id r (true, h) v w' q =
      let (name, (credential, x, found, called), up) =
        call_with_answers model adapter id r
          (resolve_credential u g org_id adapter (record v { health = h })) w' q in
      (name, (h, credential, x, found, called), up)

  try_on_answers :
      (model adapter id : Text) (r : NormalizedResponse) (v w' : World E)
      → try_on u g org_id request model adapter v ≡ (answered r id, w')
      → (adapter ≡ id)
        × (is_available v.health (u.now v.outside) adapter ≡ true)
        × Called model adapter r v w'
        × (state w'.health (u.now w'.outside) id ≡ closed)
  unfolding try_on
  try_on_answers model adapter id r v w' q =
      elim (Bool-cases (is_available v.health (u.now v.outside) adapter)) [
        | inl up ↦
            let (name, called, closes) =
              probed_answers model adapter id r (try_probe (u.now v.outside) adapter v.health) v w'
                (rw up at q) in
            (name, up, called, closes)
        | inr down ↦
            let t : ◌≡◌ {A = Tried × World E} (skipped, v) (answered r id, w') = rw down at q in
            let clash : skipped ≡ answered r id = ap (λ (o : Tried × World E). o.0) t in absurd cc
      ]

  pub try_attempt-Answers :
      (a : FallbackAttempt) (id : Text) (r : NormalizedResponse) (v w' : World E)
      → try_attempt u g org_id request a v ≡ (answered r id, w')
      → Answers a v r id w'
  unfolding try_attempt
  try_attempt-Answers a id r v w' q = elim (Option-cases (for_model g.adapters a.model_id)) [
    | inl missing ↦
        let t : ◌≡◌ {A = Tried × World E} (skipped, v) (answered r id, w') =
          rw (try_attempt, missing) at q in
        let clash : skipped ≡ answered r id = ap (λ (o : Tried × World E). o.0) t in absurd cc
    | inr (adapter, found) ↦
        let t : try_on u g org_id request a.model_id adapter v ≡ (answered r id, w') =
          rw (try_attempt, found) at q in
        let (name, up, called, closes) = try_on_answers a.model_id adapter id r v w' t in
        (
          found ∙ ap some name,
          rw⁻¹ name up,
          subst (λ n. Called a.model_id n r v w') name called,
          closes,
        )
  ]
