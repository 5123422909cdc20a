-- ===== src/Routing/Total.antt =====
-- apps/gateway/src/engine/router.rs: `route` comes to a decision or a refusal, and does not panic,
-- when the names that it looks up are ASCII.
use aegis_ai_gateway.Prelude.{
  ℕ, ◌≡◌, refl, ap, ◌∙◌, Bool, true, false, Option, none, some, Option-cases, inl, inr,
  if◌then◌else◌,
}
use aegis_ai_gateway.Error.{Result, ok}
use aegis_ai_gateway.Fallback.{ProviderHealth}
use aegis_ai_gateway.Panic.{Run, returns, panics, ◌>>=◌}
use aegis_ai_gateway.Policy.{Action, is_deny, is_passthrough, routing_mode_hint}
use aegis_ai_gateway.Pricing.{ModelPricing}
use aegis_ai_gateway.Pricing.Names.{PricingTable, resolve, get, find_canonical}
use aegis_ai_gateway.Pricing.Names.Bytes.{resolve-ascii}
use aegis_ai_gateway.Pricing.Names.Candidates.{cheaper_alternatives}
use aegis_ai_gateway.Routing.{RoutingDecision, RoutingInputs, Judgement}
use aegis_ai_gateway.Routing.Decide.{
  route, route_found, route_known, route_matched, apply_action, route_pinned, route_to_tier,
  pinned_or, or_serve, route_by_affinity, route_with_pin, serve_pinned, can_serve_pinned,
  route_by_complexity, matched_action,
}
use aegis_ai_gateway.Routing.Select.{passthrough, passthrough_capped, select_at_tier}
use aegis_ai_gateway.Table.{lookup}
use aegis_ai_gateway.Text.{Text}
use aegis_ai_gateway.Text.Utf8.{IsAscii}
use aegis_ai_gateway.Types.{
  ModelTier, RoutingHint, RoutingReason, is_passthrough_mode, target_tier, by_policy,
}
use aegis_ai_gateway.Types.Request.{NormalizedRequest}

-- The call comes to a value.
abbrev Returns {ℓ} : {A : Type ℓ} → Run A → Type ℓ
Returns {A} x = (a : A) × (x ≡ returns a)

bind-Returns {ℓ κ} :
    {A : Type ℓ} {B : Type κ} (x : Run A) (f : A → Run B)
    → Returns x
    → ((a : A) → x ≡ returns a → Returns (f a))
    → Returns (x >>= f)
bind-Returns x f r h = let s = h r.0 r.1 in (s.0, ap (λ y. y >>= f) r.1 ∙ s.1)

if-Returns {ℓ} :
    {A : Type ℓ} (b : Bool) (x y : Run A)
    → Returns x
    → (b ≡ false → Returns y)
    → Returns (if b then x else y)
if-Returns true x y h k = h
if-Returns false x y h k = k refl

get-Returns : (t : PricingTable) (name : Text) → IsAscii name → Returns (get t name)
unfolding get
get-Returns t name h = bind-Returns (resolve t name) _ (resolve-ascii t name h) (λ c e. (_, refl))

-- A model that `get` finds stands in the table.
get-lookup :
    (t : PricingTable) (name : Text) (m : ModelPricing)
    → get t name ≡ returns (some m)
    → (c : Text) × (lookup c t.by_canonical ≡ some m)
unfolding get find_canonical
get-lookup t name m h = go (resolve t name) h
  where
    go :
        (r : Run (Option Text))
        → (r >>= λ canonical. returns (find_canonical t canonical)) ≡ returns (some m)
        → (c : Text) × (lookup c t.by_canonical ≡ some m)
    go panics e = cc
    go (returns none) e = cc
    go (returns (some c)) e = (c, let q : lookup c t.by_canonical ≡ some m = cc in q)

module _ (j : Judgement) (pricing : PricingTable) (health : ProviderHealth) (now : ℕ)
    (inputs : RoutingInputs) (request : NormalizedRequest) where
  tier-Returns :
      (m : ModelPricing) (t : ModelTier) (r : RoutingReason)
      → IsAscii m.model_id
      → Returns (select_at_tier j pricing health now inputs request m t r)
  unfolding select_at_tier cheaper_alternatives
  tier-Returns m t r h =
      bind-Returns _ _
        (bind-Returns (get pricing m.model_id) _ (get-Returns pricing m.model_id h)
          (λ a e. (_, refl)))
        (λ a e. (_, refl))

  complexity-Returns :
      (m : ModelPricing) (hint : RoutingHint)
      → IsAscii m.model_id
      → Returns (route_by_complexity j pricing health now inputs request m hint)
  unfolding route_by_complexity
  complexity-Returns m hint h = elim (Option-cases (target_tier hint (j.complexity request))) [
    | inl e ↦
        rw (route_by_complexity, e)
          (ok (passthrough_capped j pricing health now inputs request m), refl)
    | inr (t, e) ↦
        rw (route_by_complexity, e)
          (bind-Returns _ _ (tier-Returns m _ _ h) (λ o q. (or_serve _ o, refl)))
  ]

  affinity-Returns :
      (m : ModelPricing) (hint : RoutingHint) (pin : Option Text)
      → IsAscii m.model_id
      → ((id : Text) → pin ≡ some id → IsAscii id)
      → Returns (route_with_pin j pricing health now inputs request m hint pin)
  unfolding route_with_pin serve_pinned
  affinity-Returns m hint none h k = complexity-Returns m hint h
  affinity-Returns m hint (some id) h k =
      bind-Returns (get pricing id) _ (get-Returns pricing id (k id refl)) serve
    where
      serve :
          (o : Option ModelPricing)
          → get pricing id ≡ returns o
          → Returns (serve_pinned j pricing health now inputs request m hint o)
      serve none e = complexity-Returns m hint h
      serve (some p) e =
          if-Returns (can_serve_pinned j pricing health now inputs request p) _ _ (_, refl)
            (λ f. complexity-Returns m hint h)

  -- The names that are looked up besides that of the request.
  abbrev pub HasAsciiPins : Type 0
  HasAsciiPins =
      ((id : Text) → inputs.affinity_model ≡ some id → IsAscii id)
      × ((a : Action) (id : Text)
          → matched_action j pricing health now inputs request ≡ some a
          → a.pin_model ≡ some id
          → IsAscii id)

  to_tier-Returns :
      (m : ModelPricing) (a : Action) (t : Option ModelTier)
      → IsAscii m.model_id
      → HasAsciiPins
      → Returns (route_to_tier j pricing health now inputs request m a t)
  unfolding route_to_tier route_by_affinity
  to_tier-Returns m a (some t) h k =
      bind-Returns _ _ (tier-Returns m t _ h) (λ o q. (or_serve _ o, refl))
  to_tier-Returns m a none h k = elim (Option-cases (routing_mode_hint a)) [
    | inl e ↦ rw (route_to_tier, e) (ok (passthrough m by_policy), refl)
    | inr (mode, e) ↦ rw (route_to_tier, e) (affinity-Returns m mode inputs.affinity_model h k.0)
  ]

  pinned-Returns :
      (m : ModelPricing) (a : Action) (pin : Option Text)
      → IsAscii m.model_id
      → HasAsciiPins
      → ((id : Text) → pin ≡ some id → IsAscii id)
      → Returns (route_pinned j pricing health now inputs request m a pin)
  unfolding route_pinned
  pinned-Returns m a none h k l = to_tier-Returns m a _ h k
  pinned-Returns m a (some id) h k l =
      bind-Returns _ _ (get-Returns pricing id (l id refl)) (λ o q. (pinned_or m o, refl))

  matched-Returns :
      (m : ModelPricing) (o : Option Action)
      → matched_action j pricing health now inputs request ≡ o
      → IsAscii m.model_id
      → HasAsciiPins
      → Returns (route_matched j pricing health now inputs request m o)
  unfolding route_matched apply_action route_by_affinity
  matched-Returns m none e h k = affinity-Returns m inputs.hint inputs.affinity_model h k.0
  matched-Returns m (some a) e h k =
      if-Returns (is_deny a) _ _ (_, refl)
        (λ f.
          if-Returns (is_passthrough a) _ _ (_, refl)
            (λ g. pinned-Returns m a a.pin_model h k (λ id p. k.1 a id e p)))

  -- `route` always comes to a decision or a refusal, and never panics, when the requested name, the
  -- pinned names and the ids of the models in the table are ASCII.
  pub route_returns :
      IsAscii request.model
      → ((name : Text) (m : ModelPricing)
          → lookup name pricing.by_canonical ≡ some m
          → IsAscii m.model_id)
      → HasAsciiPins
      → (r : Result RoutingDecision) × (route j pricing health now inputs request ≡ returns r)
  unfolding route route_found route_known
  route_returns h k l = bind-Returns _ _ (get-Returns pricing request.model h) found
    where
      found :
          (o : Option ModelPricing)
          → get pricing request.model ≡ returns o
          → Returns (route_found j pricing health now inputs request o)
      found none e = (_, refl)
      found (some m) e =
          let c = get-lookup pricing request.model m e in
          if-Returns (is_passthrough_mode inputs.hint) _ _ (_, refl)
            (λ f. matched-Returns m _ refl (k c.0 m c.1) l)
