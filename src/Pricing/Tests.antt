-- ===== src/Pricing/Tests.antt =====
-- A table of two models, and requests that name them.
use mathlib.Core.List.{Memᴰ}
use mathlib.Core.List.Permᴰ.{swap}
use aegis_ai_gateway.Prelude.{
  ℕ, ◌+◌, ◌<◌, ◌≡◌, ◌↔◌, refl, arith, true, false, none, some, List, [], ◌∷◌, ◌++◌,
}
use aegis_ai_gateway.Int.{pos}
use aegis_ai_gateway.Panic.{returns, panics}
use aegis_ai_gateway.Pricing.{ModelPricing, Requirements, anthropic, bare_name}
use aegis_ai_gateway.Pricing.Names.{
  PricingTable, from_models, resolve, get, find_canonical, resolve_normalized, resolve_prefixed,
  register_default_aliases, add_aliases, add_alias, insert_models, insert_model, empty_table,
}
use aegis_ai_gateway.Pricing.Names.Bytes.{resolve_panics_inside_character}
use aegis_ai_gateway.Pricing.Names.Candidates.{all_active, cheaper_alternatives, price_le}
use aegis_ai_gateway.Pricing.Names.Candidates.Order.{IsCheaperThan}
use aegis_ai_gateway.Pricing.Names.Candidates.Ranked.{cheaper_alternatives-IsAscending}
use aegis_ai_gateway.Pricing.Names.Candidates.Reordered.{cheaper_alternatives-reordered}
use aegis_ai_gateway.Pricing.Names.Keyed.{IsTable, IsKeyed, IsKnown}
use aegis_ai_gateway.Pricing.Names.Resolve.{resolved_name_is_priced}
use aegis_ai_gateway.Sorting.Ascending.{IsAscending}
use aegis_ai_gateway.Table.{lookup, insert as put}
use aegis_ai_gateway.Text.{Text, codes, text_eq, split_once, to_ascii_lowercase, trim, strip_prefix}
use aegis_ai_gateway.Text.Utf8.{byte_len, char_len}
use aegis_ai_gateway.Types.{ModelTier, cheap, premium}

abbrev chat_model : Text → ModelTier → ℕ → ModelPricing
chat_model id tier price = record {
  model_id = id;
  provider = codes "a";
  display_name = [];
  tier = tier;
  input_per_mtok = pos price;
  output_per_mtok = pos price;
  context_window = 1_000;
  supports_tools = true;
  supports_vision = false;
  supports_chat = true;
  is_active = true;
  source = [];
  cache = anthropic;
  long_context = none;
}

abbrev small_model : ModelPricing
small_model = chat_model (codes "a/s") cheap 100

abbrev big_model : ModelPricing
big_model = chat_model (codes "a/b") premium 400

abbrev chat_request : Requirements
chat_request = record { tools = true; vision = false; min_context = 500; chat = true }

abbrev two_models : List ModelPricing
two_models = big_model ∷ small_model ∷ []

resolve_two : resolve (from_models two_models) (codes "s") ≡ returns (some (codes "a/s"))
unfolding resolve from_models resolve_normalized lookup register_default_aliases add_aliases
    add_alias insert_models insert_model put text_eq bare_name split_once to_ascii_lowercase trim
resolve_two = refl

resolved_name_is_priced_example :
    (m : ModelPricing) × (get (from_models two_models) (codes "s") ≡ returns (some m))
    × (m.model_id ≡ codes "a/s")
resolved_name_is_priced_example =
    resolved_name_is_priced two_models (codes "s") (codes "a/s") resolve_two

get_big : get (from_models two_models) (codes "b") ≡ returns (some big_model)
unfolding get find_canonical resolve from_models resolve_normalized lookup register_default_aliases
    add_aliases add_alias insert_models insert_model put text_eq bare_name split_once
    to_ascii_lowercase trim
get_big = refl

cheaper_alternatives-IsAscending_example :
    (l : List ModelPricing) × (cheaper_alternatives
        (from_models two_models)
        (codes "b")
        chat_request
      ≡ returns l)
    × IsAscending price_le l
    × ((m : ModelPricing)
        → Memᴰ m l
          ↔ (Memᴰ m (all_active (from_models two_models)) × IsCheaperThan big_model chat_request m))
cheaper_alternatives-IsAscending_example =
    cheaper_alternatives-IsAscending (from_models two_models) (codes "b") chat_request big_model
      get_big

-- Eleven characters, of which the first takes two bytes.
abbrev accented_name : Text
accented_name = 233 ∷ codes "0123456789"

accented_lowered : to_ascii_lowercase (trim accented_name) ≡ [] ++ 233 ∷ codes "0123456789"
unfolding to_ascii_lowercase trim
accented_lowered = refl

accented_is_long : 11 < char_len 233 + byte_len (codes "0123456789")
unfolding char_len byte_len
accented_is_long = omega arith

accented_has_no_prefix : resolve_prefixed [] accented_name ≡ none
unfolding resolve_prefixed strip_prefix
accented_has_no_prefix = refl

accented_is_no_alias : lookup accented_name empty_table.aliases ≡ none
unfolding lookup
accented_is_no_alias = refl

digits_are_short : byte_len (codes "0123456789") < 11
unfolding byte_len
digits_are_short = omega arith

resolve_panics_inside_character_example : resolve empty_table accented_name ≡ panics
resolve_panics_inside_character_example =
    resolve_panics_inside_character empty_table accented_name [] (codes "0123456789") 233
      accented_lowered digits_are_short accented_is_long accented_is_no_alias accented_has_no_prefix

abbrev big_first : PricingTable
big_first = record {
  by_canonical = (codes "a/b", big_model) ∷ (codes "a/s", small_model) ∷ [];
  aliases = [];
}

abbrev small_first : PricingTable
small_first = record {
  by_canonical = (codes "a/s", small_model) ∷ (codes "a/b", big_model) ∷ [];
  aliases = [];
}

big_first-IsTable : IsTable big_first
unfolding IsKeyed IsKnown lookup text_eq
big_first-IsTable = ((refl, refl, (refl, refl, tt)), λ a c h. cc)

small_first-IsTable : IsTable small_first
unfolding IsKeyed IsKnown lookup text_eq
small_first-IsTable = ((refl, refl, (refl, refl, tt)), λ a c h. cc)

cheaper_alternatives-reordered_example :
    cheaper_alternatives big_first (codes "a/b") chat_request
    ≡ cheaper_alternatives small_first (codes "a/b") chat_request
cheaper_alternatives-reordered_example =
    cheaper_alternatives-reordered big_first small_first (codes "a/b") chat_request
      big_first-IsTable small_first-IsTable refl (swap refl refl)
