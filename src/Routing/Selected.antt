-- ===== src/Routing/Selected.antt =====
-- apps/gateway/src/engine/router.rs: the model that `select_at_tier` takes is one of the candidates.
use mathlib.Core.List.{Memᴰ}
use mathlib.Core.List.Memᴰ.{head, tail}
use aegis_ai_gateway.Prelude.{
  ℕ, ◌≡◌, ◌≤◌, refl, ap, Bool, true, ◌&&◌, Option, none, some, List, [], ◌∷◌, map, filter, find?,
  mem-filter, and_true, Bool-cases, Option-cases, inl, inr, ltb, length,
}
use aegis_ai_gateway.Fallback.{ProviderHealth}
use aegis_ai_gateway.Panic.{returns}
use aegis_ai_gateway.Pricing.{ModelPricing}
use aegis_ai_gateway.Pricing.Names.{PricingTable, get}
use aegis_ai_gateway.Pricing.Names.Candidates.{all_active}
use aegis_ai_gateway.Pricing.Names.Candidates.Order.{IsCheaperThan}
use aegis_ai_gateway.Pricing.Names.Candidates.Ranked.{cheaper_alternatives-IsAscending, tier_le_iff}
use aegis_ai_gateway.Routing.{RoutingDecision, RoutingInputs, Judgement, requirements_of}
use aegis_ai_gateway.Routing.Select.{serve, is_usable, in_order, chosen, pick, select_at_tier}
use aegis_ai_gateway.Sorting.Ascending.{mem-sort_by}
use aegis_ai_gateway.Text.{text_eq}
use aegis_ai_gateway.Types.{ModelTier, rank, tier_le, RoutingReason}
use aegis_ai_gateway.Types.Request.{NormalizedRequest}

find?-mem {ℓ} : {A : Type ℓ} (p : A → Bool) (l : List A) (a : A) → find? p l ≡ some a → Memᴰ a l
find?-mem p [] a h = cc
find?-mem p (x ∷ xs) a h = elim (Bool-cases (p x)) [
  | inl e ↦ let q : some x ≡ some a = rw e at h in head (let s : a ≡ x = cc in s)
  | inr e ↦ tail (find?-mem p xs a (rw e at h))
]

module _ (j : Judgement) (pricing : PricingTable) (health : ProviderHealth) (now : ℕ)
    (inputs : RoutingInputs) (request : NormalizedRequest) where
  in_order-mem :
      (l : List ModelPricing) (m : ModelPricing)
      → Memᴰ m (in_order j pricing health now inputs request l)
      → Memᴰ m l
  unfolding in_order
  in_order-mem l m h = elim (Option-cases (j.by_domain request l)) [
    | inl e ↦ mem-sort_by (j.by_price l) m l (rw (in_order, e) at h)
    | inr (order, e) ↦ elim (Bool-cases (ltb 1 (length l))) [
      | inl t ↦ mem-sort_by (j.by_price l) m l (mem-sort_by order m _ (rw (in_order, e, t) at h))
      | inr t ↦ mem-sort_by (j.by_price l) m l (rw (in_order, e, t) at h)
    ]
  ]

  chosen-mem :
      (first : ModelPricing) (rest : List ModelPricing)
      → Memᴰ (chosen j pricing health now inputs request first rest) (first ∷ rest)
  unfolding chosen
  chosen-mem first rest = elim (Option-cases j.select) [
    | inl e ↦ rw (chosen, e) (head refl)
    | inr (select, e) ↦
        let ids = map (λ (m : ModelPricing). m.model_id) (first ∷ rest) in
        elim (Option-cases (select (j.complexity request) ids)) [
          | inl f ↦ rw (chosen, e, f) (head refl)
          | inr (id, f) ↦
              let same = λ (m : ModelPricing). text_eq m.model_id id in
              elim (Option-cases (find? same (first ∷ rest))) [
                | inl g ↦ rw (chosen, e, f, g) (head refl)
                | inr (m, g) ↦ rw (chosen, e, f, g) (find?-mem same (first ∷ rest) m g)
              ]
        ]
  ]

  pick-mem :
      (reason : RoutingReason) (l : List ModelPricing) (d : RoutingDecision)
      → pick j pricing health now inputs request reason l ≡ some d
      → (m : ModelPricing) × Memᴰ m l × (d ≡ serve m reason (length l))
  unfolding pick
  pick-mem reason l d h = go (in_order j pricing health now inputs request l) refl
    where
      go :
          (o : List ModelPricing)
          → in_order j pricing health now inputs request l ≡ o
          → (m : ModelPricing) × Memᴰ m l × (d ≡ serve m reason (length l))
      go [] e = let bad : none ≡ some d = rw (pick, e) at h in absurd cc
      go (first ∷ rest) e =
          let m = chosen j pricing health now inputs request first rest in
          let q : some (serve m reason (length l)) ≡ some d = rw (pick, e) at h in
          (
            m,
            in_order-mem l m (rw e (chosen-mem first rest)),
            let s : d ≡ serve m reason (length l) = cc in s,
          )

  -- The model that `select_at_tier` decides for is active and strictly cheaper than the requested
  -- one, has another id and what the request needs, is at or below the tier, and its provider is
  -- permitted, configured and up; it returns a decision or none whenever the id of the requested
  -- model finds a model.
  pub select_at_tier-cheaper :
      (requested target : ModelPricing) (tier : ModelTier) (reason : RoutingReason)
      → get pricing requested.model_id ≡ returns (some target)
      → (o : Option RoutingDecision) × (select_at_tier j pricing health now inputs request requested
            tier reason
          ≡ returns o)
        × ((d : RoutingDecision)
            → o ≡ some d
            → (m : ModelPricing) × (d.served_model ≡ m.model_id)
              × (d.provider ≡ m.provider)
              × Memᴰ m (all_active pricing)
              × IsCheaperThan target (requirements_of request) m
              × (rank m.tier ≤ rank tier)
              × (is_usable j pricing health now inputs request m ≡ true))
  unfolding select_at_tier
  select_at_tier-cheaper requested target tier reason e =
      let ranked =
        cheaper_alternatives-IsAscending pricing requested.model_id (requirements_of request) target
          e in
      let keep = λ (m : ModelPricing).
        tier_le m.tier tier && is_usable j pricing health now inputs request m in
      (
        pick j pricing health now inputs request reason (filter keep ranked.0),
        rw ranked.1 refl,
        λ d h.
            let p = pick-mem reason (filter keep ranked.0) d h in
            let f = mem-filter keep p.0 ranked.0 p.1 in
            let a = (ranked.3 p.0).0 f.0 in
            let k = and_true _ _ f.1 in
            (
              p.0,
              ap (λ x. x.served_model) p.2,
              ap (λ x. x.provider) p.2,
              a.0,
              a.1,
              (tier_le_iff p.0.tier tier).0 k.0,
              k.1,
            ),
      )
