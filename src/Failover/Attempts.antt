-- ===== src/Failover/Attempts.antt =====
-- apps/gateway/src/routes/openai_compat.rs: which attempt of a chain serves a request, and when none
-- does.
use aegis_ai_gateway.Prelude.{
  ℕ, ◌+◌, ◌≡◌, refl, ap, ◌∙◌, subst, arith, List, [], ◌∷◌, ◌++◌, length, ltb, Option, none, some,
  ◌⊎◌, inl, inr,
}
use aegis_ai_gateway.Error.{AegisError, Result, ok, err}
use aegis_ai_gateway.Types.Request.{NormalizedRequest}
use aegis_ai_gateway.Usage.{Uuid}
use aegis_ai_gateway.Fallback.{FallbackAttempt}
use aegis_ai_gateway.Failover.Answers.{Answers, try_attempt-Answers}
use aegis_ai_gateway.Failover.Refused.{IsStatus400, IsFair, try_attempt-IsFair}
use aegis_ai_gateway.Failover.{
  Upstream, Gateway, World, Tried, skipped, failed, refused, answered, Served, try_attempt,
  then_next, try_from, execute_with_fallback,
}

-- The loop goes on behind an attempt that was skipped, or failed otherwise than as a bad request.
abbrev pub GoesOn : Tried → Type 0
GoesOn skipped = Unit
GoesOn (failed x) = Unit
GoesOn (refused x) = ⊥
GoesOn (answered r id) = ⊥

module _ {E : Type 0} (u : Upstream E) (g : Gateway) (org_id : Uuid)
    (request : NormalizedRequest) where
  -- The attempts are made one after the other, none of them ends the loop, and they lead from one
  -- state to the other.
  abbrev pub Passed : List FallbackAttempt → World E → World E → Type 0
  Passed [] w v = w ≡ v
  Passed (a ∷ l) w v =
      GoesOn (try_attempt u g org_id request a w).0
      × Passed l (try_attempt u g org_id request a w).1 v

  -- An attempt behind passed ones comes to `t` and leaves `w'`.
  abbrev pub EndsAt :
      List FallbackAttempt
      → World E
      → (before : List FallbackAttempt) → FallbackAttempt
      → Tried
      → World E
      → Type 0
  EndsAt chain w before a t w' =
      (after : List FallbackAttempt) × (v : World E) × (chain ≡ before ++ a ∷ after)
      × Passed before w v
      × (try_attempt u g org_id request a v ≡ (t, w'))

  abbrev pub ServedBy : ℕ → List FallbackAttempt → World E → Served → World E → Type 0
  ServedBy index chain w s w' =
      (before : List FallbackAttempt) × (a : FallbackAttempt) × EndsAt chain w before a
        (answered s.response s.provider_id) w'
      × (s.model_id ≡ a.model_id)
      × (s.used_fallback ≡ ltb 0 (index + length before))

  abbrev pub RefusedBy : List FallbackAttempt → World E → AegisError → World E → Type 0
  RefusedBy chain w x w' =
      (before : List FallbackAttempt) × (a : FallbackAttempt) × EndsAt chain w before a (refused x)
        w'

  abbrev pub Ends : ℕ → List FallbackAttempt → World E → Result Served × World E → Type 0
  Ends index chain w (ok s, w') = ServedBy index chain w s w'
  Ends index chain w (err x, w') = Passed chain w w' ⊎ RefusedBy chain w x w'

  later :
      (index : ℕ) (a : FallbackAttempt) (rest : List FallbackAttempt) (w v : World E) (t : Tried)
      → try_attempt u g org_id request a w ≡ (t, v)
      → GoesOn t
      → (out : Result Served × World E) → Ends (index + 1) rest v out
      → Ends index (a ∷ rest) w out
  later index a rest w v t q on (ok s, w') (before, b, (after, x, e, p, r), m, f) =
      (a ∷ before, b, (after, x, ap (◌∷◌ a) e, rw q (on, p), r), m, f ∙ ap (ltb 0) (omega arith))
  later index a rest w v t q on (err x, w') (inl p) = inl (rw q (on, p))
  later index a rest w v t q on (err x, w') (inr (before, b, (after, y, e, p, r))) =
      inr (a ∷ before, b, (after, y, ap (◌∷◌ a) e, rw q (on, p), r))

  try_from-Ends :
      (index : ℕ) (last : Option AegisError) (chain : List FallbackAttempt) (w : World E)
      → Ends index chain w (try_from u g org_id request index last chain w)
  unfolding try_from then_next
  try_from-Ends index last [] w = inl refl
  try_from-Ends index last (a ∷ rest) w =
      next (λ l v. try_from-Ends (index + 1) l rest v) (try_attempt u g org_id request a w) refl
    where
      Behind : Tried × World E → Type 0
      Behind out = Ends index (a ∷ rest) w (
          then_next u g org_id request a.model_id index
            (λ l. try_from u g org_id request (index + 1) l rest) last out)

      next :
          ((l : Option AegisError) (v : World E)
            → Ends (index + 1) rest v (try_from u g org_id request (index + 1) l rest v))
          → (out : Tried × World E) → try_attempt u g org_id request a w ≡ out
          → Behind out
      next on (skipped, v) q =
          later index a rest w v skipped q tt (try_from u g org_id request (index + 1) last rest v)
            (on last v)
      next on (failed x, v) q =
          later index a rest w v (failed x) q tt
            (try_from u g org_id request (index + 1) (some x) rest v) (on (some x) v)
      next on (refused x, v) q = inr ([], a, (rest, w, refl, refl, q))
      next on (answered r id, v) q =
          ([], a, (rest, w, refl, refl, q), refl, ap (ltb 0) (omega arith))

  abbrev pub ServedFrom : List FallbackAttempt → World E → Served → World E → Type 0
  ServedFrom chain w s w' =
      (before : List FallbackAttempt) × (a : FallbackAttempt) × (after : List FallbackAttempt)
      × (v : World E) × (chain ≡ before ++ a ∷ after)
      × Passed before w v
      × Answers u g org_id request a v s.response s.provider_id w'
      × (s.model_id ≡ a.model_id)
      × (s.used_fallback ≡ ltb 0 (length before))

  -- A request is served by the first attempt of its chain that answers: the attempts before it were
  -- skipped or failed, the response is that of its call on its own model with the credential
  -- found for it, its circuit let the request through and is closed afterwards, and the request counts
  -- as a fallback unless it is the first.
  pub execute_with_fallback_serves :
      (chain : List FallbackAttempt) (w : World E) (s : Served) (w' : World E)
      → execute_with_fallback u g org_id request chain w ≡ (ok s, w')
      → ServedFrom chain w s w'
  unfolding execute_with_fallback
  execute_with_fallback_serves chain w s w' h =
      let found : Ends 0 chain w (ok s, w') =
        subst (Ends 0 chain w) h (try_from-Ends 0 none chain w) in
      let (before, a, (after, v, e, p, t), m, f) = found in
      (
        before,
        a,
        after,
        v,
        e,
        p,
        try_attempt-Answers u g org_id request a s.provider_id s.response v w' t,
        m,
        f ∙ ap (ltb 0) (omega arith),
      )

  refused-IsStatus400 :
      (chain : List FallbackAttempt) (w : World E) (x : AegisError) (w' : World E)
      → RefusedBy chain w x w'
      → IsStatus400 x
  refused-IsStatus400 chain w x w' (before, a, (after, v, e, p, q)) =
      subst (λ (out : Tried × World E). IsFair out.0) q (try_attempt-IsFair u g org_id request a v)

  -- A request fails only if each attempt of its chain was skipped or failed, in turn, or if its
  -- error is a provider's with the status 400 and the first attempt that was neither ended with
  -- it.
  pub execute_with_fallback_fails :
      (chain : List FallbackAttempt) (w : World E) (x : AegisError) (w' : World E)
      → execute_with_fallback u g org_id request chain w ≡ (err x, w')
      → Passed chain w w' ⊎ (IsStatus400 x × RefusedBy chain w x w')
  unfolding execute_with_fallback
  execute_with_fallback_fails chain w x w' h =
      let found : Ends 0 chain w (err x, w') =
        subst (Ends 0 chain w) h (try_from-Ends 0 none chain w) in
      elim found [
        | inl passed ↦ inl passed
        | inr refusal ↦ inr (refused-IsStatus400 chain w x w' refusal, refusal)
      ]
