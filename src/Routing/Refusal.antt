-- ===== src/Routing/Refusal.antt =====
-- apps/gateway/src/engine/router.rs: when `route` refuses a request.
use aegis_ai_gateway.Prelude.{
  ℕ, ◌≡◌, ◌≢◌, ◌↔◌, refl, sym, ap, ◌∙◌, true, false, Option, none, some, Bool-cases, Option-cases,
  inl, inr,
}
use aegis_ai_gateway.Error.{Result, ok, err, AegisError, model_not_allowed}
use aegis_ai_gateway.Fallback.{ProviderHealth}
use aegis_ai_gateway.Panic.{Run, returns, panics, ◌>>=◌}
use aegis_ai_gateway.Policy.{Action, is_deny, is_passthrough, routing_mode_hint}
use aegis_ai_gateway.Pricing.{ModelPricing}
use aegis_ai_gateway.Pricing.Names.{PricingTable, get}
use aegis_ai_gateway.Routing.{RoutingDecision, RoutingInputs, Judgement}
use aegis_ai_gateway.Routing.Decide.{
  route, route_found, route_known, route_matched, apply_action, route_pinned, route_to_tier,
  pinned_or, or_serve, route_by_affinity, route_with_pin, serve_pinned, can_serve_pinned,
  route_by_complexity, matched_action,
}
use aegis_ai_gateway.Text.{Text}
use aegis_ai_gateway.Types.{ModelTier, RoutingHint, is_passthrough_mode, target_tier}
use aegis_ai_gateway.Types.Request.{NormalizedRequest}

-- The call does not return an error.
abbrev Serves : Run (Result RoutingDecision) → Type 0
Serves x = (e : AegisError) → x ≢ returns (err e)

ok-Serves : (d : RoutingDecision) → Serves (returns (ok d))
ok-Serves d e h = cc

bind-Serves :
    {A : Type 0} (x : Run A) (f : A → Run (Result RoutingDecision))
    → ((a : A) → Serves (f a))
    → Serves (x >>= f)
bind-Serves (returns a) f h = h a
bind-Serves panics f h = λ e k. cc

or_serve-Serves :
    (d : RoutingDecision) (o : Option RoutingDecision) → Serves (returns (or_serve d o))
unfolding or_serve
or_serve-Serves d none = ok-Serves d
or_serve-Serves d (some c) = ok-Serves c

pinned_or-Serves : (m : ModelPricing) (o : Option ModelPricing) → Serves (returns (pinned_or m o))
unfolding pinned_or
pinned_or-Serves m none = ok-Serves _
pinned_or-Serves m (some c) = ok-Serves _

module _ (j : Judgement) (pricing : PricingTable) (health : ProviderHealth) (now : ℕ)
    (inputs : RoutingInputs) (request : NormalizedRequest) where
  complexity-Serves :
      (m : ModelPricing) (hint : RoutingHint)
      → Serves (route_by_complexity j pricing health now inputs request m hint)
  unfolding route_by_complexity
  complexity-Serves m hint = elim (Option-cases (target_tier hint (j.complexity request))) [
    | inl e ↦ rw (route_by_complexity, e) (ok-Serves _)
    | inr (t, e) ↦ rw (route_by_complexity, e) (bind-Serves _ _ (λ o. or_serve-Serves _ o))
  ]

  pinned-Serves :
      (m : ModelPricing) (hint : RoutingHint) (o : Option ModelPricing)
      → Serves (serve_pinned j pricing health now inputs request m hint o)
  unfolding serve_pinned
  pinned-Serves m hint none = complexity-Serves m hint
  pinned-Serves m hint (some p) =
      elim (Bool-cases (can_serve_pinned j pricing health now inputs request p)) [
        | inl e ↦ rw e (ok-Serves _)
        | inr e ↦ rw e (complexity-Serves m hint)
      ]

  affinity-Serves :
      (m : ModelPricing) (hint : RoutingHint) (pin : Option Text)
      → Serves (route_with_pin j pricing health now inputs request m hint pin)
  unfolding route_with_pin
  affinity-Serves m hint none = complexity-Serves m hint
  affinity-Serves m hint (some p) = bind-Serves _ _ (pinned-Serves m hint)

  tier-Serves :
      (m : ModelPricing) (a : Action) (t : Option ModelTier)
      → Serves (route_to_tier j pricing health now inputs request m a t)
  unfolding route_to_tier route_by_affinity
  tier-Serves m a (some t) = bind-Serves _ _ (λ o. or_serve-Serves _ o)
  tier-Serves m a none = elim (Option-cases (routing_mode_hint a)) [
    | inl e ↦ rw (route_to_tier, e) (ok-Serves _)
    | inr (mode, e) ↦ rw (route_to_tier, e) (affinity-Serves m mode inputs.affinity_model)
  ]

  pin-Serves :
      (m : ModelPricing) (a : Action) (pin : Option Text)
      → Serves (route_pinned j pricing health now inputs request m a pin)
  unfolding route_pinned
  pin-Serves m a none = tier-Serves m a _
  pin-Serves m a (some p) = bind-Serves _ _ (pinned_or-Serves m)

  allowed-Serves :
      (m : ModelPricing) (a : Action)
      → is_deny a ≡ false
      → Serves (apply_action j pricing health now inputs request m a)
  unfolding apply_action
  allowed-Serves m a d = elim (Bool-cases (is_passthrough a)) [
    | inl e ↦ rw (d, e) (ok-Serves _)
    | inr e ↦ rw (d, e) (pin-Serves m a a.pin_model)
  ]

  -- What is left of `route` behind the tests that come first.
  forced :
      (m : ModelPricing)
      → get pricing request.model ≡ returns (some m)
      → is_passthrough_mode inputs.hint ≡ true
      → Serves (route j pricing health now inputs request)
  unfolding route route_found route_known
  forced m known t = rw (route, known, route_known, t) (ok-Serves _)

  unforced :
      (m : ModelPricing)
      → get pricing request.model ≡ returns (some m)
      → is_passthrough_mode inputs.hint ≡ false
      → route j pricing health now inputs request
        ≡ route_matched j pricing health now inputs request m
            (matched_action j pricing health now inputs request)
  unfolding route route_found route_known
  unforced m known t = rw (route, known, route_known, t) refl

  deny_refuses :
      (m : ModelPricing) (a : Action)
      → is_deny a ≡ true
      → (e : AegisError) × (apply_action j pricing health now inputs request m a ≡ returns (err e))
  unfolding apply_action
  deny_refuses m a d =
      (model_not_allowed "an organisation policy forbids routing this request", rw d refl)

  -- A request for a model that the table knows is refused exactly if the caller does not force
  -- passthrough and the first rule of the policy that matches the request denies it.
  pub route_refuses_iff_denied :
      (requested : ModelPricing)
      → get pricing request.model ≡ returns (some requested)
      → ((e : AegisError) × (route j pricing health now inputs request ≡ returns (err e))) ↔ (
          (is_passthrough_mode inputs.hint ≡ false)
          × (a : Action) × (matched_action j pricing health now inputs request ≡ some a)
          × (is_deny a ≡ true))
  unfolding route_matched route_by_affinity
  route_refuses_iff_denied requested known = (
    λ w. elim (Bool-cases (is_passthrough_mode inputs.hint)) [
      | inl t ↦ absurd (forced requested known t w.0 w.1)
      | inr t ↦ let r = refused w.0 (sym (unforced requested known t) ∙ w.1) in (t, r.0, r.1, r.2)
    ],
    λ w.
        let d = deny_refuses requested w.1 w.3 in
        (
          d.0,
          unforced requested known w.0
              ∙ ap (route_matched j pricing health now inputs request requested) w.2
              ∙ d.1,
        ),
  )
    where
      by_action :
          (o : Option Action) (e : AegisError)
          → route_matched j pricing health now inputs request requested o ≡ returns (err e)
          → (a : Action) × (o ≡ some a) × (is_deny a ≡ true)
      by_action none e h = absurd (affinity-Serves requested inputs.hint inputs.affinity_model e h)
      by_action (some a) e h = elim (Bool-cases (is_deny a)) [
        | inl d ↦ (a, refl, d)
        | inr d ↦ absurd (allowed-Serves requested a d e h)
      ]

      refused :
          (e : AegisError)
          → route_matched j pricing health now inputs request requested
              (matched_action j pricing health now inputs request)
            ≡ returns (err e)
          → (a : Action) × (matched_action j pricing health now inputs request ≡ some a)
            × (is_deny a ≡ true)
      refused e h = by_action (matched_action j pricing health now inputs request) e h
