-- ===== src/Types/Modes.antt =====
-- The routing modes of types.rs: their wire values and how far each trades quality for cost.
use aegis_ai_gateway.Prelude.{◌≡◌, refl, Option, none, some, ℕ, ◌≤◌, arith}
use aegis_ai_gateway.Text.{Text, trim}
use aegis_ai_gateway.Types.{
  RoutingHint, auto, passthrough_mode, quality, balanced, economy, Complexity, simple, medium,
  complex, ModelTier, rank, resolve_hint, hint_as_str, target_tier,
}

-- The tier as a rank, with no substitution above every tier.
abbrev pub strength : Option ModelTier → ℕ
strength none = 4
strength (some t) = rank t

-- How hard a mode trades.
abbrev pub thrift : RoutingHint → ℕ
thrift passthrough_mode = 0
thrift quality = 1
thrift auto = 2
thrift balanced = 2
thrift economy = 3

abbrev pub difficulty : Complexity → ℕ
difficulty simple = 0
difficulty medium = 1
difficulty complex = 2

harder_request :
    (h : RoutingHint) (a b : Complexity)
    → difficulty a ≤ difficulty b
    → strength (target_tier h a) ≤ strength (target_tier h b)
unfolding target_tier
harder_request h a b p = ground arith

thriftier_mode :
    (g h : RoutingHint) (a : Complexity)
    → thrift g ≤ thrift h
    → strength (target_tier h a) ≤ strength (target_tier g a)
unfolding target_tier
thriftier_mode g h a p = ground arith

-- The modes form a ladder: a mode that trades harder never targets a higher tier, and a harder
-- request never gets a lower one; and a complex request is not substituted in any mode.
pub target_tier-is_ladder :
    (g h : RoutingHint) (a b : Complexity)
    → thrift g ≤ thrift h
    → difficulty a ≤ difficulty b
    → (strength (target_tier h a) ≤ strength (target_tier g b)) × (target_tier h complex ≡ none)
unfolding target_tier
target_tier-is_ladder g h a b p q =
    (omega (arith, harder_request h a b q, thriftier_mode g h b p), refl)

-- A mode written to the wire is read back as itself, in a header that then outranks the default.
pub resolve_hint-hint_as_str :
    (h : RoutingHint) (default_mode : Option Text)
    → resolve_hint (some (hint_as_str h)) default_mode ≡ h
unfolding resolve_hint hint_as_str trim
resolve_hint-hint_as_str auto d = refl
resolve_hint-hint_as_str passthrough_mode d = refl
resolve_hint-hint_as_str quality d = refl
resolve_hint-hint_as_str balanced d = refl
resolve_hint-hint_as_str economy d = refl
