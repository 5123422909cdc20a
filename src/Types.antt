-- ===== src/Types.antt =====
-- apps/gateway/src/types.rs: token counts, tiers, complexity bands, routing reasons and modes. Wire
-- values that are parsed are texts.
pub mod Modes
pub mod Request
pub mod Response
use aegis_ai_gateway.Prelude.{
  ℕ, ◌+◌, ◌%◌, Bool, true, false, ◌||◌, Option, none, some, ltb, leb, if◌then◌else◌, [], ◌∷◌,
}
use aegis_ai_gateway.Text.{Text, codes, text_eq, to_ascii_lowercase, lower_char, trim}

-- `+` on `u64` wraps around in a release build.
abbrev pub wrap_u64 : ℕ → ℕ
wrap_u64 n = n % 18_446_744_073_709_551_616

pub record TokenUsage : Type 0 where
  pub input_tokens : ℕ
  pub output_tokens : ℕ
  pub cached_input_tokens : ℕ
  pub cache_write_tokens : ℕ
  pub estimated : Bool

unfoldable pub total : TokenUsage → ℕ
total u = wrap_u64 (u.input_tokens + u.cached_input_tokens + u.cache_write_tokens + u.output_tokens)

unfoldable pub total_input : TokenUsage → ℕ
total_input u = wrap_u64 (u.input_tokens + u.cached_input_tokens + u.cache_write_tokens)

unfoldable pub used_prompt_cache : TokenUsage → Bool
used_prompt_cache u = ltb 0 u.cached_input_tokens || ltb 0 u.cache_write_tokens

pub data ModelTier : Type 0 where
  cheap mid premium frontier : ModelTier

-- The derived order follows the constructors.
abbrev pub rank : ModelTier → ℕ
rank cheap = 0
rank mid = 1
rank premium = 2
rank frontier = 3

unfoldable pub tier_le : ModelTier → ModelTier → Bool
tier_le a b = leb (rank a) (rank b)

unfoldable pub tier_min : ModelTier → ModelTier → ModelTier
unfolding tier_le
tier_min a b = if tier_le a b then a else b

unfoldable pub parse_tier : Text → ModelTier
unfolding to_ascii_lowercase lower_char text_eq
parse_tier raw =
    let lowered = to_ascii_lowercase raw in
    if text_eq lowered (codes "cheap")
    then cheap
    else if text_eq lowered (codes "premium")
    then premium
    else if text_eq lowered (codes "frontier")
    then frontier
    else mid

unfoldable pub tier_as_str : ModelTier → Text
tier_as_str cheap = codes "cheap"
tier_as_str mid = codes "mid"
tier_as_str premium = codes "premium"
tier_as_str frontier = codes "frontier"

-- The bands; the score that a band is read from is a float.
pub data Complexity : Type 0 where
  simple medium complex : Complexity

unfoldable pub complexity_as_str : Complexity → Text
complexity_as_str simple = codes "simple"
complexity_as_str medium = codes "medium"
complexity_as_str complex = codes "complex"

pub data RoutingReason : Type 0 where
  by_policy by_complexity by_fallback provider_unavailable by_cache passed_through user_override :
      RoutingReason

unfoldable pub reason_as_str : RoutingReason → Text
reason_as_str by_policy = codes "policy"
reason_as_str by_complexity = codes "complexity"
reason_as_str by_fallback = codes "fallback"
reason_as_str provider_unavailable = codes "provider_unavailable"
reason_as_str by_cache = codes "cache"
reason_as_str passed_through = codes "passthrough"
reason_as_str user_override = codes "user_override"

pub data CacheOutcome : Type 0 where
  exact semantic miss skipped : CacheOutcome

unfoldable pub outcome_as_str : CacheOutcome → Text
outcome_as_str exact = codes "exact"
outcome_as_str semantic = codes "semantic"
outcome_as_str miss = codes "miss"
outcome_as_str skipped = codes "skipped"

unfoldable pub is_hit : CacheOutcome → Bool
is_hit exact = true
is_hit semantic = true
is_hit miss = false
is_hit skipped = false

pub data RoutingHint : Type 0 where
  auto passthrough_mode quality balanced economy : RoutingHint

unfoldable pub parse_hint_text : Text → RoutingHint
unfolding to_ascii_lowercase lower_char text_eq
parse_hint_text raw =
    let value = to_ascii_lowercase (trim raw) in
    if text_eq value (codes "passthrough")
    then passthrough_mode
    else if text_eq value (codes "quality")
    then quality
    else if text_eq value (codes "balanced")
    then balanced
    else if text_eq value (codes "economy") || text_eq value (codes "cheap")
    then economy
    else auto

unfoldable pub parse_hint : Option Text → RoutingHint
unfolding parse_hint_text
parse_hint none = auto
parse_hint (some raw) = parse_hint_text raw

unfoldable pub resolve_hint : (header default_mode : Option Text) → RoutingHint
unfolding parse_hint
resolve_hint none default_mode = parse_hint default_mode
resolve_hint (some header) default_mode = elim (trim header) [
  | [] ↦ parse_hint default_mode
  | c ∷ rest ↦ parse_hint (some (c ∷ rest))
]

unfoldable pub hint_as_str : RoutingHint → Text
hint_as_str auto = codes "auto"
hint_as_str passthrough_mode = codes "passthrough"
hint_as_str quality = codes "quality"
hint_as_str balanced = codes "balanced"
hint_as_str economy = codes "economy"

abbrev pub is_passthrough_mode : RoutingHint → Bool
is_passthrough_mode passthrough_mode = true
is_passthrough_mode _ = false

unfoldable pub target_tier : RoutingHint → Complexity → Option ModelTier
target_tier _ complex = none
target_tier passthrough_mode medium = none
target_tier quality medium = none
target_tier auto medium = some mid
target_tier balanced medium = some mid
target_tier economy medium = some cheap
target_tier passthrough_mode simple = none
target_tier quality simple = some mid
target_tier auto simple = some cheap
target_tier balanced simple = some cheap
target_tier economy simple = some cheap
