-- ===== src/Pricing/Names/Resolve.antt =====
-- apps/gateway/src/metering/pricing.rs: the attempts of `resolve`, and that what it finds has a price.
use aegis_ai_gateway.Prelude.{◌≡◌, ◌≢◌, refl, ◌∙◌, Option, none, some, List, Option-cases, inl, inr}
use aegis_ai_gateway.Panic.{Run, returns, panics}
use aegis_ai_gateway.Pricing.{ModelPricing}
use aegis_ai_gateway.Pricing.Names.{
  from_models, strip_date_suffix, resolve_dated, resolve_prefixed, resolve_normalized, resolve, get,
  find_canonical,
}
use aegis_ai_gateway.Pricing.Names.Keyed.{IsKnown, lookup-IsKeyed, from_models-IsTable}
use aegis_ai_gateway.Table.{Table, lookup}
use aegis_ai_gateway.Text.{Text, codes, strip_prefix}

-- What a name resolves to is the target of an alias.
resolve_dated-alias :
    (aliases : Table Text) (name c : Text)
    → resolve_dated aliases name ≡ returns (some c)
    → (a : Text) × (lookup a aliases ≡ some c)
unfolding resolve_dated
resolve_dated-alias aliases name c h = go (strip_date_suffix name) refl
  where
    go :
        (r : Run (Option Text))
        → strip_date_suffix name ≡ r
        → (a : Text) × (lookup a aliases ≡ some c)
    go panics e = let bad : panics ≡ returns (some c) = rw e at h in absurd cc
    go (returns none) e = let bad : returns none ≡ returns (some c) = rw e at h in absurd cc
    go (returns (some b)) e =
        let q : returns (lookup b aliases) ≡ returns (some c) = rw e at h in (b, cc)

resolve_prefixed-alias :
    (aliases : Table Text) (name c : Text)
    → resolve_prefixed aliases name ≡ some c
    → (a : Text) × (lookup a aliases ≡ some c)
unfolding resolve_prefixed
resolve_prefixed-alias aliases name c h =
    elim (Option-cases (strip_prefix (codes "openrouter/") name)) [
      | inl e ↦ let bad : none ≡ some c = rw (resolve_prefixed, e) at h in absurd cc
      | inr (b, e) ↦ (b, rw (resolve_prefixed, e) at h)
    ]

resolve_normalized-alias :
    (aliases : Table Text) (name c : Text)
    → resolve_normalized aliases name ≡ returns (some c)
    → (a : Text) × (lookup a aliases ≡ some c)
unfolding resolve_normalized
resolve_normalized-alias aliases name c h = elim (Option-cases (lookup name aliases)) [
  | inr (d, e) ↦
      let q : returns (some d) ≡ returns (some c) = rw (resolve_normalized, e) at h in
      (name, e ∙ cc)
  | inl e ↦ elim (Option-cases (resolve_prefixed aliases name)) [
    | inr (d, f) ↦
        let q : returns (some d) ≡ returns (some c) = rw (resolve_normalized, e, f) at h in
        resolve_prefixed-alias aliases name c (f ∙ cc)
    | inl f ↦ resolve_dated-alias aliases name c (rw (resolve_normalized, e, f) at h)
  ]
]

-- In a table built from any rows, a name that resolves has a price, and it is that of the model
-- that it resolves to.
pub resolved_name_is_priced :
    (ms : List ModelPricing) (requested canonical : Text)
    → resolve (from_models ms) requested ≡ returns (some canonical)
    → (m : ModelPricing) × (get (from_models ms) requested ≡ returns (some m))
      × (m.model_id ≡ canonical)
unfolding get find_canonical IsKnown resolve
resolved_name_is_priced ms requested canonical h =
    let t = from_models ms in
    let ok = from_models-IsTable ms in
    elim (Option-cases (lookup canonical t.by_canonical)) [
      | inl e ↦ absurd (named e)
      | inr (m, e) ↦ (m, rw (h, e) refl, lookup-IsKeyed canonical m t.by_canonical ok.0 e)
    ]
  where
    named : lookup canonical (from_models ms).by_canonical ≢ none
    named =
        let a = resolve_normalized-alias (from_models ms).aliases _ canonical h in
        (from_models-IsTable ms).1 a.0 canonical a.1

-- A name that is no alias and has none behind the prefix is left to the dated attempt.
pub falls_through :
    (aliases : Table Text) (name : Text)
    → lookup name aliases ≡ none
    → resolve_prefixed aliases name ≡ none
    → resolve_normalized aliases name ≡ resolve_dated aliases name
unfolding resolve_normalized
falls_through aliases name absent unprefixed = rw (resolve_normalized, absent, unprefixed) refl
