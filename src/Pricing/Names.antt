-- ===== src/Pricing/Names.antt =====
-- apps/gateway/src/metering/pricing.rs: `PricingTable` and how a name that a caller uses finds its
-- model. Its two maps are association lists.
pub mod Keyed
pub mod Resolve
pub mod Dated
pub mod Bytes
pub mod Candidates
use aegis_ai_gateway.Prelude.{
  ℕ, ◌-◌, Bool, true, false, ◌&&◌, Option, none, some, String, List, [], ◌∷◌, ltb, leb, ◌==◌,
  if◌then◌else◌, all, take, drop, length,
}
use aegis_ai_gateway.Money.{MicroCents}
use aegis_ai_gateway.Panic.{Run, returns, panics, ◌>>=◌}
use aegis_ai_gateway.Pricing.{ModelPricing, bare_name, cost, cost_of}
use aegis_ai_gateway.Table.{Table, lookup, insert as put}
use aegis_ai_gateway.Text.{Text, codes, to_ascii_lowercase, trim, strip_prefix}
use aegis_ai_gateway.Text.Utf8.{byte_len, split_at}
use aegis_ai_gateway.Types.{TokenUsage}

pub record PricingTable : Type 0 where
  pub by_canonical : Table ModelPricing
  pub aliases : Table Text

abbrev pub empty_table : PricingTable
empty_table = record { by_canonical = []; aliases = [] }

-- `entry(k).or_insert(v)`
unfoldable pub or_insert : Text → Text → Table Text → Table Text
or_insert k v m = elim (lookup k m) [ none ↦ put k v m | some _ ↦ m ]

unfoldable pub insert_model : ModelPricing → PricingTable → PricingTable
unfolding or_insert
insert_model model t = record {
  by_canonical = put model.model_id model t.by_canonical;
  aliases =
      put model.model_id model.model_id (or_insert (bare_name model) model.model_id t.aliases);
}

unfoldable pub add_alias : (alias canonical : Text) → PricingTable → PricingTable
add_alias alias canonical t = elim (lookup canonical t.by_canonical) [
  | none ↦ t
  | some _ ↦ record { by_canonical = t.by_canonical; aliases = put alias canonical t.aliases }
]

abbrev pub default_aliases : List (String × String)
default_aliases =
    ("auto", "openai/gpt-4o")
    ∷ ("balanced", "openai/gpt-4o")
    ∷ ("quality", "openai/gpt-4o")
    ∷ ("economy", "google/gemini-2.5-flash")
    ∷ ("speed", "groq/llama-3.3-70b-versatile")
    ∷ ("gpt-4o-latest", "openai/gpt-4o")
    ∷ ("chatgpt-4o-latest", "openai/gpt-4o")
    ∷ ("claude-3-5-sonnet", "anthropic/claude-sonnet-4-5")
    ∷ ("claude-sonnet-4-5-20250929", "anthropic/claude-sonnet-4-5")
    ∷ ("claude-opus-4-5-20251101", "anthropic/claude-opus-4-5")
    ∷ ("gemini-flash", "google/gemini-2.5-flash")
    ∷ ("mistral-7b-instruct-v0.1", "mistral/mistral-small-latest")
    ∷ ("mistral-7b-instruct-v0.2", "mistral/mistral-small-latest")
    ∷ ("mistral-7b-instruct-v0.3", "mistral/mistral-small-latest")
    ∷ ("mistral-7b", "mistral/mistral-small-latest")
    ∷ ("mistral-small", "mistral/mistral-small-latest")
    ∷ ("deepseek-chat", "deepseek/deepseek-v4-flash")
    ∷ ("deepseek-reasoner", "deepseek/deepseek-v4-pro")
    ∷ []

unfoldable pub add_aliases : List (String × String) → PricingTable → PricingTable
add_aliases [] t = t
add_aliases ((alias, canonical) ∷ rest) t =
    add_aliases rest (add_alias (codes alias) (codes canonical) t)

unfoldable pub register_default_aliases : PricingTable → PricingTable
register_default_aliases t = add_aliases default_aliases t

unfoldable pub insert_models : List ModelPricing → PricingTable → PricingTable
insert_models [] t = t
insert_models (m ∷ ms) t = insert_models ms (insert_model m t)

unfoldable pub from_models : List ModelPricing → PricingTable
from_models models = register_default_aliases (insert_models models empty_table)

abbrev pub is_ascii_digit : ℕ → Bool
is_ascii_digit c = leb b'0' c && leb c b'9'

-- `digits` has the shape DDDD-DD-DD.
unfoldable pub has_date_shape : Text → Bool
has_date_shape (a ∷ b ∷ c ∷ d ∷ e ∷ f ∷ g ∷ h ∷ i ∷ j ∷ []) =
    all is_ascii_digit (a ∷ b ∷ c ∷ d ∷ [])
    && e == b'-'
    && all is_ascii_digit (f ∷ g ∷ [])
    && h == b'-'
    && all is_ascii_digit (i ∷ j ∷ [])
has_date_shape _ = false

unfoldable pub is_date_suffix : Text → Bool
unfolding has_date_shape
is_date_suffix [] = false
is_date_suffix (c ∷ digits) = c == b'-' && has_date_shape digits

-- The suffix starts eleven bytes before the end, wherever that is in the text.
unfoldable pub strip_date_suffix : Text → Run (Option Text)
unfolding is_date_suffix
strip_date_suffix name =
    if ltb (byte_len name) 11
    then returns none
    else (split_at (byte_len name - 11) name >>= λ parts.
        returns (if is_date_suffix parts.1 then some parts.0 else none))

-- The last attempt of `resolve`, then that of the prefix, then the name itself.
unfoldable pub dated_lookup : Table Text → Option Text → Run (Option Text)
dated_lookup aliases none = returns none
dated_lookup aliases (some base) = returns (lookup base aliases)

unfoldable pub resolve_dated : Table Text → Text → Run (Option Text)
unfolding dated_lookup
resolve_dated aliases normalized = strip_date_suffix normalized >>= dated_lookup aliases

unfoldable pub resolve_prefixed : Table Text → Text → Option Text
resolve_prefixed aliases normalized = elim (strip_prefix (codes "openrouter/") normalized) [
  | none ↦ none
  | some stripped ↦ lookup stripped aliases
]

unfoldable pub resolve_normalized : Table Text → Text → Run (Option Text)
unfolding resolve_prefixed
resolve_normalized aliases normalized = elim (lookup normalized aliases) [
  | some canonical ↦ returns (some canonical)
  | none ↦ elim (resolve_prefixed aliases normalized) [
    | some canonical ↦ returns (some canonical)
    | none ↦ resolve_dated aliases normalized
  ]
]

unfoldable pub resolve : PricingTable → Text → Run (Option Text)
resolve t requested = resolve_normalized t.aliases (to_ascii_lowercase (trim requested))

unfoldable pub find_canonical : PricingTable → Option Text → Option ModelPricing
find_canonical t none = none
find_canonical t (some canonical) = lookup canonical t.by_canonical

unfoldable pub get : PricingTable → Text → Run (Option ModelPricing)
unfolding find_canonical
get t requested = resolve t requested >>= λ canonical. returns (find_canonical t canonical)

unfoldable pub table_cost :
    PricingTable → Text → (input_tokens output_tokens : ℕ) → Run (Option MicroCents)
table_cost t model input_tokens output_tokens = get t model >>= λ found.
    returns (elim found [ none ↦ none | some m ↦ some (cost m input_tokens output_tokens) ])

unfoldable pub table_cost_of : PricingTable → Text → TokenUsage → Run (Option MicroCents)
table_cost_of t model usage =
    get t model >>= λ found. returns (elim found [ none ↦ none | some m ↦ some (cost_of m usage) ])

unfoldable pub baseline_of : PricingTable → Text → TokenUsage → MicroCents → Run MicroCents
baseline_of t requested_model usage fallback = table_cost_of t requested_model usage >>= λ found.
    returns (elim found [ none ↦ fallback | some amount ↦ amount ])
