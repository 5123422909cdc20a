-- ===== src/Routing/Permitted.antt =====
-- apps/gateway/src/engine/router.rs: routing by complexity serves what the organisation may use.
use mathlib.Core.List.{Memᴰ}
use aegis_ai_gateway.Prelude.{
  ℕ, ◌≡◌, ◌↔◌, ◌≤◌, ◌⊎◌, refl, sym, ap, ◌∙◌, subst, arith, Bool, true, ◌&&◌, Option, none, some, [],
  mem-filter, filter-mem, and_true, Bool-cases, Option-cases, inl, inr, if◌then◌else◌,
}
use aegis_ai_gateway.Error.{ok}
use aegis_ai_gateway.Fallback.{ProviderHealth, is_available}
use aegis_ai_gateway.Panic.{returns}
use aegis_ai_gateway.Pricing.{ModelPricing}
use aegis_ai_gateway.Pricing.Names.{PricingTable, get}
use aegis_ai_gateway.Pricing.Names.Candidates.{all_active, satisfies}
use aegis_ai_gateway.Pricing.Names.Candidates.Ranked.{tier_le_iff}
use aegis_ai_gateway.Routing.{RoutingDecision, RoutingInputs, Judgement, requirements_of}
use aegis_ai_gateway.Routing.Decide.{
  route, route_found, route_matched, route_known, route_by_complexity, route_by_affinity,
  route_with_pin, matched_action,
}
use aegis_ai_gateway.Routing.Pressure.{effective_tier-bounds}
use aegis_ai_gateway.Routing.Select.{
  serve, passthrough, is_usable, within_plan, better, capped_candidates, capped_choice,
  passthrough_capped, effective_tier,
}
use aegis_ai_gateway.Routing.Selected.{select_at_tier-cheaper}
use aegis_ai_gateway.Sorting.{max_by}
use aegis_ai_gateway.Sorting.Ascending.{min_by-mem, min_by-none}
use aegis_ai_gateway.Types.{
  ModelTier, rank, RoutingHint, is_passthrough_mode, user_override, RoutingReason, complex,
  target_tier, by_complexity, passed_through,
}
use aegis_ai_gateway.Types.Request.{NormalizedRequest}

module _ (j : Judgement) (pricing : PricingTable) (health : ProviderHealth) (now : ℕ)
    (inputs : RoutingInputs) (request : NormalizedRequest) where
  -- A model that the organisation may use now, and whose tier its plan allows.
  abbrev pub IsPermitted : ModelPricing → Type 0
  IsPermitted m =
      (is_usable j pricing health now inputs request m ≡ true)
      × (within_plan j pricing health now inputs request m ≡ true)

  -- The decision is for a permitted model, an active one of the table or the requested one; or it is
  -- for the requested one, and no active model is permitted and can do what the request needs.
  abbrev pub IsSafe : (requested : ModelPricing) → RoutingDecision → Type 0
  IsSafe requested d =
      ((m : ModelPricing) × (d.served_model ≡ m.model_id)
        × (d.provider ≡ m.provider)
        × (Memᴰ m (all_active pricing) ⊎ (m ≡ requested))
        × IsPermitted m)
      ⊎ ((d ≡ serve requested passed_through 0)
          × ((m : ModelPricing)
              → Memᴰ m (all_active pricing)
              → satisfies m (requirements_of request) ≡ true
              → ¬ IsPermitted m))

  passthrough_capped_lem :
      (requested : ModelPricing)
      → passthrough_capped j pricing health now inputs request requested ≡ (
          if within_plan j pricing health now inputs request requested
            && is_usable j pricing health now inputs request requested
          then serve requested passed_through 0
          else capped_choice requested (is_available health now requested.provider) (
              max_by
                (better j pricing health now inputs request)
                (capped_candidates j pricing health now inputs request)))
  unfolding passthrough_capped
  passthrough_capped_lem requested = refl

  capped_candidates_iff :
      (m : ModelPricing)
      → Memᴰ m (capped_candidates j pricing health now inputs request) ↔ (
          Memᴰ m (all_active pricing)
          × (satisfies m (requirements_of request) ≡ true)
          × IsPermitted m)
  unfolding capped_candidates
  capped_candidates_iff m = (
    λ k.
        let (active, test) = mem-filter _ m (all_active pricing) k in
        let (front, usable) = and_true _ _ test in
        let (allowed, capable) = and_true _ _ front in (active, capable, (usable, allowed)),
    λ (active, capable, permitted).
        filter-mem _ m (all_active pricing) active (rw (permitted.0, permitted.1, capable) refl),
  )

  no_other :
      capped_candidates j pricing health now inputs request ≡ []
      → (m : ModelPricing) → Memᴰ m (all_active pricing)
      → satisfies m (requirements_of request) ≡ true
      → ¬ IsPermitted m
  no_other e m active capable permitted =
      elim (subst (Memᴰ m) e ((capped_candidates_iff m).1 (active, capable, permitted))) [ ]

  capped_choice-IsSafe :
      (requested : ModelPricing) (up : Bool) (o : Option ModelPricing)
      → max_by
          (better j pricing health now inputs request)
          (capped_candidates j pricing health now inputs request)
        ≡ o
      → IsSafe requested (capped_choice requested up o)
  unfolding capped_choice max_by
  capped_choice-IsSafe requested up none e = inr (refl, no_other (min_by-none _ _ e))
  capped_choice-IsSafe requested up (some m) e =
      let (active, _, permitted) = (capped_candidates_iff m).0 (min_by-mem _ _ m e) in
      inl (m, refl, refl, inl active, permitted)

  passthrough_capped-IsSafe :
      (requested : ModelPricing)
      → IsSafe requested (passthrough_capped j pricing health now inputs request requested)
  passthrough_capped-IsSafe requested =
      let allowed =
        within_plan j pricing health now inputs request requested
        && is_usable j pricing health now inputs request requested in
      subst (IsSafe requested) (sym (passthrough_capped_lem requested)) (elim (Bool-cases allowed) [
        | inl e ↦ let p = and_true _ _ e in rw e (inl (requested, refl, refl, inr refl, (p.1, p.0)))
        | inr e ↦ rw e (capped_choice-IsSafe requested _ _ refl)
      ])

  within_plan_lem :
      (m : ModelPricing)
      → ((c : ModelTier) → inputs.plan_tier_ceiling ≡ some c → rank m.tier ≤ rank c)
      → within_plan j pricing health now inputs request m ≡ true
  unfolding within_plan
  within_plan_lem m h = elim (Option-cases inputs.plan_tier_ceiling) [
    | inl e ↦ rw (within_plan, e) refl
    | inr (c, e) ↦ rw (within_plan, e) ((tier_le_iff m.tier c).1 (h c e))
  ]

  -- Routing by complexity always decides, once the id of the requested model finds a model. The
  -- model that it serves is an active one of the table or the requested one, and may be used by the
  -- organisation: it is on its list, its provider is configured and up, and its tier is within the
  -- plan; or else it is the requested model, and no active model that can do what the request needs
  -- may be used.
  pub route_by_complexity-IsSafe :
      (requested target : ModelPricing) (hint : RoutingHint)
      → get pricing requested.model_id ≡ returns (some target)
      → (d : RoutingDecision) × (route_by_complexity j pricing health now inputs request requested
            hint
          ≡ returns (ok d))
        × IsSafe requested d
  unfolding route_by_complexity
  route_by_complexity-IsSafe requested target hint e =
      elim (Option-cases (target_tier hint (j.complexity request))) [
        | inl f ↦ (
          passthrough_capped j pricing health now inputs request requested,
          rw (route_by_complexity, f) refl,
          passthrough_capped-IsSafe requested,
        )
        | inr (t, f) ↦
            let tier = effective_tier j pricing health now inputs request requested t in
            let s =
              select_at_tier-cheaper j pricing health now inputs request requested target tier
                by_complexity e in
            elim (Option-cases s.0) [
              | inl g ↦ (
                passthrough_capped j pricing health now inputs request requested,
                rw (route_by_complexity, f, s.1, g) refl,
                passthrough_capped-IsSafe requested,
              )
              | inr (d, g) ↦
                  let m = s.2 d g in
                  let bounds =
                    effective_tier-bounds j pricing health now inputs request requested t in
                  (
                    d,
                    rw (route_by_complexity, f, s.1, g) refl,
                    inl (
                      m.0,
                      m.1,
                      m.2,
                      inl m.3,
                      (
                        m.6,
                        within_plan_lem m.0
                            (λ c k. let low = bounds.2 c k in let under = m.5 in omega arith),
                      ),
                    ),
                  )
            ]
      ]

  unpinned :
      (requested : ModelPricing) (hint : RoutingHint)
      → inputs.affinity_model ≡ none
      → route_by_affinity j pricing health now inputs request requested hint
        ≡ route_by_complexity j pricing health now inputs request requested hint
  unfolding route_by_affinity route_with_pin
  unpinned requested hint a =
      ap (route_with_pin j pricing health now inputs request requested hint) a

  complex_is_capped :
      (requested : ModelPricing) (hint : RoutingHint)
      → j.complexity request ≡ complex
      → IsPermitted requested
      → route_by_complexity j pricing health now inputs request requested hint
        ≡ returns (ok (serve requested passed_through 0))
  unfolding route_by_complexity target_tier
  complex_is_capped requested hint c h =
      rw (route_by_complexity, c, passthrough_capped_lem requested, h.1, h.0) refl

  -- A complex request is served on the model that it asks for in every mode, when no policy has a
  -- rule for it, no model is pinned to its conversation and it may use the model.
  pub complex_is_served_as_requested :
      (requested : ModelPricing)
      → get pricing request.model ≡ returns (some requested)
      → j.complexity request ≡ complex
      → matched_action j pricing health now inputs request ≡ none
      → inputs.affinity_model ≡ none
      → IsPermitted requested
      → (reason : RoutingReason) × (route j pricing health now inputs request
          ≡ returns (ok (serve requested reason 0)))
  unfolding route route_found route_known route_matched passthrough
  complex_is_served_as_requested requested e c p a h =
      elim (Bool-cases (is_passthrough_mode inputs.hint)) [
        | inl t ↦ (user_override, rw (route, e, route_known, t) refl)
        | inr t ↦ (
          passed_through,
          rw (route, e, route_known, t, p)
              (unpinned requested inputs.hint a ∙ complex_is_capped requested inputs.hint c h),
        )
      ]
