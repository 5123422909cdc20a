-- ===== src/Pricing/Names/Keyed.antt =====
-- apps/gateway/src/metering/pricing.rs: the invariant of `PricingTable`, which `insert` and
-- `add_alias` keep: a model stands at its own id, once, and every alias names a model.
use mathlib.Core.List.{Memᴰ}
use mathlib.Core.List.Memᴰ.{head, tail}
use aegis_ai_gateway.Prelude.{
  ◌≡◌, ◌≢◌, refl, sym, ap, ◌∙◌, subst, none, some, List, [], ◌∷◌, Bool-cases, Option-cases, inl,
  inr, String, ◌⊎◌,
}
use aegis_ai_gateway.Pricing.{ModelPricing, bare_name}
use aegis_ai_gateway.Pricing.Names.{
  PricingTable, empty_table, or_insert, insert_model, add_alias, add_aliases, default_aliases,
  register_default_aliases, insert_models, from_models,
}
use aegis_ai_gateway.Table.{Table, lookup, insert as put, lookup-insert as lookup-put}
use aegis_ai_gateway.Text.{Text, text_eq, codes}
use aegis_ai_gateway.Text.Equality.{text_eq_refl, text_eq_comm, eq_of_text_eq}

unfoldable pub IsKeyed : Table ModelPricing → Type 0
IsKeyed [] = Unit
IsKeyed ((k, v) ∷ m) = (k ≡ v.model_id) × (lookup k m ≡ none) × IsKeyed m

put-IsKeyed : (v : ModelPricing) (m : Table ModelPricing) → IsKeyed m → IsKeyed (put v.model_id v m)
unfolding IsKeyed put lookup
put-IsKeyed v [] h = (refl, refl, tt)
put-IsKeyed v ((j, w) ∷ m) h = elim (Bool-cases (text_eq j v.model_id)) [
  | inl e ↦ rw e (refl, subst (λ k. lookup k m ≡ none) (eq_of_text_eq j v.model_id e) h.1, h.2)
  | inr e ↦
      let absent : lookup j (put v.model_id v m) ≡ none =
        rw (lookup-put v.model_id j v m, text_eq_comm v.model_id j, e) h.1 in
      rw e (h.0, absent, put-IsKeyed v m h.2)
]

pub lookup-IsKeyed :
    (k : Text) (v : ModelPricing) (m : Table ModelPricing)
    → IsKeyed m
    → lookup k m ≡ some v
    → v.model_id ≡ k
unfolding IsKeyed lookup
lookup-IsKeyed k v [] h e = cc
lookup-IsKeyed k v ((j, w) ∷ m) h e = elim (Bool-cases (text_eq j k)) [
  | inl t ↦
      let same : some w ≡ some v = rw t at e in
      let w_is_v : w ≡ v = cc in ap (λ u. u.model_id) (sym w_is_v) ∙ sym h.0 ∙ eq_of_text_eq j k t
  | inr t ↦ lookup-IsKeyed k v m h.2 (rw t at e)
]

pub lookup_mem :
    (k : Text) (v : ModelPricing) (m : Table ModelPricing)
    → IsKeyed m
    → Memᴰ (k, v) m
    → lookup k m ≡ some v
unfolding IsKeyed lookup
lookup_mem k v [] h n = elim n [ ]
lookup_mem k v ((j, w) ∷ m) h (head e) =
    subst (λ p. lookup p.0 ((j, w) ∷ m) ≡ some p.1) (sym e) (rw (text_eq_refl j) refl)
lookup_mem k v ((j, w) ∷ m) h (tail n) =
    let ih = lookup_mem k v m h.2 n in
    elim (Bool-cases (text_eq j k)) [
      | inl t ↦
          let gone : lookup k m ≡ none = subst (λ i. lookup i m ≡ none) (eq_of_text_eq j k t) h.1 in
          absurd (cc)
      | inr t ↦ rw t ih
    ]

pub mem_lookup :
    (k : Text) (v : ModelPricing) (m : Table ModelPricing) → lookup k m ≡ some v → Memᴰ (k, v) m
unfolding lookup
mem_lookup k v [] e = cc
mem_lookup k v ((j, w) ∷ m) e = elim (Bool-cases (text_eq j k)) [
  | inl t ↦
      let same : some w ≡ some v = rw t at e in
      let w_is_v : w ≡ v = cc in
      let j_is_k = eq_of_text_eq j k t in head (λ i. (sym j_is_k i, sym w_is_v i))
  | inr t ↦ tail (mem_lookup k v m (rw t at e))
]

module _ {ℓ} {V : Type ℓ} where
  lookup-put_cases :
      (k a : Text) (v c : V) (m : Table V)
      → lookup a (put k v m) ≡ some c
      → (v ≡ c) ⊎ (lookup a m ≡ some c)
  lookup-put_cases k a v c m h = elim (Bool-cases (text_eq k a)) [
    | inl t ↦ let q : some v ≡ some c = rw (lookup-put k a v m, t) at h in inl cc
    | inr t ↦ inr (rw (lookup-put k a v m, t) at h)
  ]

  lookup-put_has : (k : Text) (v : V) (m : Table V) → lookup k (put k v m) ≢ none
  lookup-put_has k v m h =
      let q : some v ≡ none = rw (lookup-put k k v m, text_eq_refl k) at h in cc

  lookup-put_keeps :
      (k a : Text) (v : V) (m : Table V) → lookup a m ≢ none → lookup a (put k v m) ≢ none
  lookup-put_keeps k a v m some_a h = elim (Bool-cases (text_eq k a)) [
    | inl t ↦ let q : some v ≡ none = rw (lookup-put k a v m, t) at h in cc
    | inr t ↦ some_a (rw (lookup-put k a v m, t) at h)
  ]

or_insert_cases :
    (k a v c : Text) (m : Table Text)
    → lookup a (or_insert k v m) ≡ some c
    → (v ≡ c) ⊎ (lookup a m ≡ some c)
unfolding or_insert
or_insert_cases k a v c m h = elim (Option-cases (lookup k m)) [
  | inl e ↦ lookup-put_cases k a v c m (rw (e, or_insert) at h)
  | inr (x, e) ↦ inr (rw (e, or_insert) at h)
]

-- Every alias names a model.
unfoldable pub IsKnown : PricingTable → Type 0
IsKnown t = (a c : Text) → lookup a t.aliases ≡ some c → lookup c t.by_canonical ≢ none

abbrev pub IsTable : PricingTable → Type 0
IsTable t = IsKeyed t.by_canonical × IsKnown t

insert_model-IsTable :
    (m : ModelPricing) (t : PricingTable) → IsTable t → IsTable (insert_model m t)
unfolding insert_model IsKnown or_insert
insert_model-IsTable m t h = (
  put-IsKeyed m t.by_canonical h.0,
  λ a c e.
      let old = λ (k : lookup a t.aliases ≡ some c).
        lookup-put_keeps m.model_id c m t.by_canonical (h.1 a c k) in
      let new = λ (q : m.model_id ≡ c).
        subst (λ k. lookup k (put m.model_id m t.by_canonical) ≢ none) q
          (lookup-put_has m.model_id m t.by_canonical) in
      elim (lookup-put_cases m.model_id a m.model_id c _ e) [
        | inl q ↦ new q
        | inr k ↦ elim (or_insert_cases (bare_name m) a m.model_id c t.aliases k) [
          | inl q ↦ new q
          | inr k' ↦ old k'
        ]
      ],
)

add_alias-IsTable : (a c : Text) (t : PricingTable) → IsTable t → IsTable (add_alias a c t)
unfolding add_alias IsKnown
add_alias-IsTable a c t h = elim (Option-cases (lookup c t.by_canonical)) [
  | inl e ↦ rw (e, add_alias) h
  | inr (v, e) ↦
      rw (e, add_alias)
        (
          h.0,
          λ b d k. elim (lookup-put_cases a b c d t.aliases k) [
            | inl q ↦ subst (λ x. lookup x t.by_canonical ≢ none) q (λ gone. absurd cc)
            | inr k' ↦ h.1 b d k'
          ],
        )
]

add_aliases-IsTable :
    (l : List (String × String)) (t : PricingTable) → IsTable t → IsTable (add_aliases l t)
unfolding add_aliases
add_aliases-IsTable [] t h = h
add_aliases-IsTable ((a, c) ∷ l) t h =
    add_aliases-IsTable l (add_alias (codes a) (codes c) t)
      (add_alias-IsTable (codes a) (codes c) t h)

insert_models-IsTable :
    (ms : List ModelPricing) (t : PricingTable) → IsTable t → IsTable (insert_models ms t)
unfolding insert_models
insert_models-IsTable [] t h = h
insert_models-IsTable (m ∷ ms) t h =
    insert_models-IsTable ms (insert_model m t) (insert_model-IsTable m t h)

empty_table-IsTable : IsTable empty_table
unfolding IsKeyed IsKnown lookup
empty_table-IsTable = (tt, λ a c h. cc)

-- A table built from any rows is well-formed: each model stands at its own id, once, and every
-- alias names a model.
pub from_models-IsTable : (ms : List ModelPricing) → IsTable (from_models ms)
unfolding from_models register_default_aliases
from_models-IsTable ms =
    add_aliases-IsTable default_aliases (insert_models ms empty_table)
      (insert_models-IsTable ms empty_table empty_table-IsTable)
