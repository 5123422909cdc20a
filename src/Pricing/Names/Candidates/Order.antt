-- ===== src/Pricing/Names/Candidates/Order.antt =====
-- apps/gateway/src/metering/pricing.rs: the order of candidates, and what a candidate has to offer.
use aegis_ai_gateway.Prelude.{◌≡◌, ◌≢◌, ◌↔◌, ◌≤◌, arith, true, false}
use aegis_ai_gateway.Int.{◌<ℤ◌}
use aegis_ai_gateway.Pricing.{ModelPricing, Requirements, blended_per_mtok}
use aegis_ai_gateway.Pricing.Names.Candidates.{satisfies, price_le, is_alternative}
use aegis_ai_gateway.Text.Equality.{text_eq_iff}
use aegis_ai_gateway.Text.Order.{text_le-total, text_le_trans, text_le_antisymm}

pub price_le-total : (a b : ModelPricing) → price_le a b ≡ false → price_le b a ≡ true
unfolding price_le
price_le-total a b h = let ids = text_le-total a.model_id b.model_id in ground arith

pub price_le_trans :
    (a b c : ModelPricing) → price_le a b ≡ true → price_le b c ≡ true → price_le a c ≡ true
unfolding price_le
price_le_trans a b c h k = let ids = text_le_trans a.model_id b.model_id c.model_id in ground arith

pub price_le_antisymm :
    (a b : ModelPricing) → price_le a b ≡ true → price_le b a ≡ true → a.model_id ≡ b.model_id
unfolding price_le
price_le_antisymm a b h k = let ids = text_le_antisymm a.model_id b.model_id in ground arith

-- What a request asks of a model.
abbrev pub Serves : ModelPricing → Requirements → Type 0
Serves m r =
    (r.chat ≡ true → m.supports_chat ≡ true)
    × (r.tools ≡ true → m.supports_tools ≡ true)
    × (r.vision ≡ true → m.supports_vision ≡ true)
    × (r.min_context ≤ m.context_window)

pub satisfies_iff : (m : ModelPricing) (r : Requirements) → (satisfies m r ≡ true) ↔ Serves m r
unfolding satisfies
satisfies_iff m r = ground arith

-- A model that may stand in for `target`.
abbrev pub IsCheaperThan : ModelPricing → Requirements → ModelPricing → Type 0
IsCheaperThan target r m =
    (m.model_id ≢ target.model_id) × (blended_per_mtok m <ℤ blended_per_mtok target) × Serves m r

pub is_alternative_iff :
    (target : ModelPricing) (r : Requirements) (m : ModelPricing)
    → (is_alternative target r m ≡ true) ↔ IsCheaperThan target r m
unfolding is_alternative
is_alternative_iff target r m =
    let serves = satisfies_iff m r in
    let ids = text_eq_iff m.model_id target.model_id in ground arith
