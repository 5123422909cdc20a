-- ===== src/Pricing/Names/Candidates.antt =====
-- apps/gateway/src/metering/pricing.rs: which models can stand in for another. `all` goes through
-- the models in the order of the association list; a `HashMap` gives no order, and
-- `Candidates.Order` shows that it does not matter.
pub mod Order
pub mod Ranked
pub mod Reordered
use aegis_ai_gateway.Prelude.{
  ℕ, Bool, true, false, not, ◌&&◌, ◌||◌, Option, none, some, List, [], ◌∷◌, leb, if◌then◌else◌,
  filter,
}
use aegis_ai_gateway.Int.{ltb_ℤ, eqb_ℤ, leb_ℤ}
use aegis_ai_gateway.Panic.{Run, returns, ◌>>=◌}
use aegis_ai_gateway.Pricing.{ModelPricing, Requirements, blended_per_mtok}
use aegis_ai_gateway.Pricing.Names.{PricingTable, get}
use aegis_ai_gateway.Sorting.{sort_by, min_by}
use aegis_ai_gateway.Table.{Table}
use aegis_ai_gateway.Text.{Text, text_eq}
use aegis_ai_gateway.Text.Order.{text_le}
use aegis_ai_gateway.Types.{ModelTier, tier_le}

unfoldable pub table_values {ℓ} : {V : Type ℓ} → Table V → List V
table_values [] = []
table_values ((k, v) ∷ m) = v ∷ table_values m

unfoldable pub all_active : PricingTable → List ModelPricing
unfolding table_values
all_active t = filter (λ m. m.is_active) (table_values t.by_canonical)

unfoldable pub satisfies : ModelPricing → Requirements → Bool
satisfies m r =
    (not r.chat || m.supports_chat)
    && (not r.tools || m.supports_tools)
    && (not r.vision || m.supports_vision)
    && leb r.min_context m.context_window

-- The order by price, then by name.
unfoldable pub price_le : ModelPricing → ModelPricing → Bool
unfolding blended_per_mtok
price_le a b =
    ltb_ℤ (blended_per_mtok a) (blended_per_mtok b)
    || (eqb_ℤ (blended_per_mtok a) (blended_per_mtok b) && text_le a.model_id b.model_id)

-- The tests that a candidate passes in place of `target`.
unfoldable pub is_alternative : ModelPricing → Requirements → ModelPricing → Bool
unfolding satisfies
is_alternative target r m =
    not (text_eq m.model_id target.model_id)
    && ltb_ℤ (blended_per_mtok m) (blended_per_mtok target)
    && satisfies m r

unfoldable pub alternatives_to :
    PricingTable → Requirements → Option ModelPricing → List ModelPricing
unfolding is_alternative
alternatives_to t r none = []
alternatives_to t r (some target) =
    sort_by price_le (filter (is_alternative target r) (all_active t))

unfoldable pub cheaper_alternatives : PricingTable → Text → Requirements → Run (List ModelPricing)
unfolding alternatives_to
cheaper_alternatives t requested r =
    get t requested >>= λ target. returns (alternatives_to t r target)

unfoldable pub cheapest_at_or_below : PricingTable → ModelTier → Requirements → Option ModelPricing
unfolding min_by
cheapest_at_or_below t max_tier r =
    min_by price_le
      (filter (λ m. satisfies m r) (filter (λ m. tier_le m.tier max_tier) (all_active t)))

unfoldable pub cheapest_embedding_model : PricingTable → Option ModelPricing
unfolding min_by
cheapest_embedding_model t =
    min_by (λ a b. leb_ℤ a.input_per_mtok b.input_per_mtok)
      (filter (λ m. not m.supports_chat) (all_active t))
