-- ===== src/Pricing/Names/Candidates/Reordered.antt =====
-- apps/gateway/src/metering/pricing.rs: the order in which a `HashMap` gives its entries does not
-- show in the candidates.
use mathlib.Core.List.{Memᴰ, Permᴰ}
use mathlib.Core.List.Memᴰ.{head, tail}
use mathlib.Core.List.Permᴰ
use mathlib.Core.List.Permᴰ.{nil, cons, swap, trans}
use aegis_ai_gateway.Prelude.{
  ◌≡◌, refl, sym, ap, Option, none, some, [], ◌∷◌, mem-filter, Option-cases, inl, inr, ◌∙◌,
}
use aegis_ai_gateway.Panic.{Run, returns, panics, ◌>>=◌}
use aegis_ai_gateway.Pricing.{ModelPricing, Requirements}
use aegis_ai_gateway.Pricing.Names.{PricingTable, get, find_canonical, resolve, resolve_normalized}
use aegis_ai_gateway.Pricing.Names.Candidates.{
  table_values, all_active, price_le, is_alternative, alternatives_to, cheaper_alternatives,
}
use aegis_ai_gateway.Pricing.Names.Candidates.Order.{
  price_le-total, price_le_trans, price_le_antisymm,
}
use aegis_ai_gateway.Pricing.Names.Keyed.{IsKeyed, IsTable, lookup_mem, mem_lookup}
use aegis_ai_gateway.Sorting.Reordered.{sort_by-reordered, Permᴰ-filter, Permᴰ-mem}
use aegis_ai_gateway.Table.{Table, lookup}
use aegis_ai_gateway.Text.{Text, to_ascii_lowercase, trim}

table_values-mem :
    (v : ModelPricing) (m : Table ModelPricing)
    → IsKeyed m
    → Memᴰ v (table_values m)
    → Memᴰ (v.model_id, v) m
unfolding table_values IsKeyed
table_values-mem v [] h n = elim n [ ]
table_values-mem v ((k, w) ∷ m) h (head e) = head (λ i. ((ap (λ u. u.model_id) e ∙ sym h.0) i, e i))
table_values-mem v ((k, w) ∷ m) h (tail n) = tail (table_values-mem v m h.2 n)

-- In a well-formed table an id has one model.
one_model :
    (t : PricingTable) (a b : ModelPricing)
    → IsKeyed t.by_canonical
    → Memᴰ a (all_active t)
    → Memᴰ b (all_active t)
    → a.model_id ≡ b.model_id
    → a ≡ b
unfolding all_active
one_model t a b h m n e =
    let ma = table_values-mem a t.by_canonical h (mem-filter (λ v. v.is_active) a _ m).0 in
    let nb = table_values-mem b t.by_canonical h (mem-filter (λ v. v.is_active) b _ n).0 in
    let la = lookup_mem a.model_id a t.by_canonical h ma in
    let lb = lookup_mem b.model_id b t.by_canonical h nb in
    let both : some a ≡ some b = sym la ∙ ap (λ k. lookup k t.by_canonical) e ∙ lb in cc

table_values-reordered :
    {m n : Table ModelPricing} → Permᴰ m n → Permᴰ (table_values m) (table_values n)
unfolding table_values
table_values-reordered nil = nil
table_values-reordered (cons {a = (j, v)} {b = (k, w)} e p) =
    cons (ap (λ q. q.1) e) (table_values-reordered p)
table_values-reordered (swap {a = (i, u)} {b = (j, v)} {a' = (k, w)} {b' = (l, x)} e f) =
    swap (ap (λ q. q.1) e) (ap (λ q. q.1) f)
table_values-reordered (trans p q) = trans (table_values-reordered p) (table_values-reordered q)

all_active-reordered :
    (t u : PricingTable) → Permᴰ t.by_canonical u.by_canonical → Permᴰ (all_active t) (all_active u)
unfolding all_active
all_active-reordered t u p = Permᴰ-filter (λ m. m.is_active) (table_values-reordered p)

lookup-reordered :
    (k : Text) {m n : Table ModelPricing}
    → IsKeyed m
    → IsKeyed n
    → Permᴰ m n
    → lookup k m ≡ lookup k n
lookup-reordered k {m} {n} hm hn p = elim (Option-cases (lookup k m)) [
  | inr (v, e) ↦ e ∙ sym (lookup_mem k v n hn (Permᴰ-mem (k, v) p (mem_lookup k v m e)))
  | inl e ↦ elim (Option-cases (lookup k n)) [
    | inl f ↦ e ∙ sym f
    | inr (v, f) ↦
        let g = lookup_mem k v m hm (Permᴰ-mem (k, v) (Permᴰ.symm p) (mem_lookup k v n f)) in
        absurd (let bad : none ≡ some v = sym e ∙ g in cc)
  ]
]

get-reordered :
    (t u : PricingTable) (requested : Text)
    → IsKeyed t.by_canonical
    → IsKeyed u.by_canonical
    → t.aliases ≡ u.aliases
    → Permᴰ t.by_canonical u.by_canonical
    → get t requested ≡ get u requested
unfolding get resolve find_canonical
get-reordered t u requested ht hu e p =
    ap (λ c. c >>= λ canonical. returns (find_canonical t canonical))
      (ap (λ a. resolve_normalized a (to_ascii_lowercase (trim requested))) e)
    ∙ go (resolve u requested)
  where
    go :
        (c : Run (Option Text))
        → (c >>= λ k. returns (find_canonical t k)) ≡ (c >>= λ k. returns (find_canonical u k))
    go panics = refl
    go (returns none) = refl
    go (returns (some k)) = ap returns (lookup-reordered k ht hu p)

alternatives_to-reordered :
    (t u : PricingTable) (r : Requirements) (target : Option ModelPricing)
    → IsKeyed t.by_canonical
    → Permᴰ t.by_canonical u.by_canonical
    → alternatives_to t r target ≡ alternatives_to u r target
unfolding alternatives_to
alternatives_to-reordered t u r none h p = refl
alternatives_to-reordered t u r (some target) h p =
    let active = λ (m : ModelPricing). m.is_active in
    sort_by-reordered price_le price_le-total price_le_trans
      (λ a b m n x y.
        one_model t a b h (mem-filter (is_alternative target r) a _ m).0
          (mem-filter (is_alternative target r) b _ n).0 (price_le_antisymm a b x y))
      (Permᴰ-filter (is_alternative target r) (all_active-reordered t u p))

-- The order in which the map of a well-formed table holds its models changes nothing: two tables
-- with the same aliases and the same models in different orders have the same alternatives.
pub cheaper_alternatives-reordered :
    (t u : PricingTable) (requested : Text) (r : Requirements)
    → IsTable t
    → IsTable u
    → t.aliases ≡ u.aliases
    → Permᴰ t.by_canonical u.by_canonical
    → cheaper_alternatives t requested r ≡ cheaper_alternatives u requested r
unfolding cheaper_alternatives
cheaper_alternatives-reordered t u requested r ht hu e p =
    let same = get-reordered t u requested ht.0 hu.0 e p in rw same (go (get u requested))
  where
    go :
        (c : Run (Option ModelPricing))
        → (c >>= λ target. returns (alternatives_to t r target))
          ≡ (c >>= λ target. returns (alternatives_to u r target))
    go panics = refl
    go (returns target) = ap returns (alternatives_to-reordered t u r target ht.0 p)
