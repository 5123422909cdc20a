-- ===== src/Types/Request.antt =====
-- apps/gateway/src/types.rs: messages and requests. A JSON part of a message is what the code reads
-- of it, its `text` and its `type`, and a JSON tool is the text that it prints as. The fields that
-- no function here reads (the choice of tools, the end user, tool calls) are left out.
use aegis_ai_gateway.Prelude.{
  ℕ, ◌+◌, ◌*◌, ◌/◌, Bool, true, false, ◌||◌, Option, none, some, List, [], ◌∷◌, ◌++◌, map, any,
  filter, find?, length, if◌then◌else◌,
}
use aegis_ai_gateway.Text.{Text, codes, starts_with}
use aegis_ai_gateway.Text.Utf8.{byte_len}

pub data Role : Type 0 where
  system user assistant tool developer : Role

unfoldable pub role_as_str : Role → Text
role_as_str system = codes "system"
role_as_str user = codes "user"
role_as_str assistant = codes "assistant"
role_as_str tool = codes "tool"
role_as_str developer = codes "developer"

abbrev pub is_user : Role → Bool
is_user user = true
is_user _ = false

abbrev pub is_system_like : Role → Bool
is_system_like system = true
is_system_like developer = true
is_system_like _ = false

pub record Part : Type 0 where
  pub part_text : Option Text
  pub part_type : Option Text

pub data Content : Type 0 where
  plain : Text → Content
  parts : List Part → Content

unfoldable pub join : Text → List Text → Text
join separator [] = []
join separator (x ∷ []) = x
join separator (x ∷ y ∷ rest) = x ++ (separator ++ join separator (y ∷ rest))

unfoldable pub contains : Text → Text → Bool
contains needle [] = starts_with needle []
contains needle (c ∷ s) = starts_with needle (c ∷ s) || contains needle s

unfoldable pub part_texts : List Part → List Text
part_texts [] = []
part_texts (p ∷ ps) = elim p.part_text [ none ↦ part_texts ps | some t ↦ t ∷ part_texts ps ]

unfoldable pub as_text : Content → Text
unfolding part_texts join
as_text (plain t) = t
as_text (parts ps) = join (codes "\n") (part_texts ps)

unfoldable pub is_image : Part → Bool
unfolding contains
is_image p = elim p.part_type [ none ↦ false | some t ↦ contains (codes "image") t ]

unfoldable pub has_image : Content → Bool
unfolding is_image
has_image (plain _) = false
has_image (parts ps) = any is_image ps

unfoldable pub text_len : Content → ℕ
text_len c = byte_len (as_text c)

pub record Message : Type 0 where
  pub role : Role
  pub content : Option Content
  pub name : Option Text

unfoldable pub text_message : Role → Text → Message
text_message role t = record { role = role; content = some (plain t); name = none }

unfoldable pub text_content : Message → Text
unfolding as_text
text_content m = elim m.content [ none ↦ [] | some c ↦ as_text c ]

-- A temperature, as what the code reads of the float: its six decimals, and whether it is above 0.7.
pub record Temperature : Type 0 where
  pub decimals : Text
  pub is_high : Bool

-- `top_p` stands as its six decimals, JSON as the text that it prints as.
pub record NormalizedRequest : Type 0 where
  pub model : Text
  pub messages : List Message
  pub max_tokens : Option ℕ
  pub stream : Bool
  pub tools : List Text
  pub temperature : Option Temperature
  pub top_p : Option Text
  pub stop : Option Text
  pub response_format : Option Text
  pub extra : List (Text × Text)

unfoldable pub simple_request : (model prompt : Text) → NormalizedRequest
unfolding text_message
simple_request model prompt = record {
  model = model;
  messages = text_message user prompt ∷ [];
  max_tokens = none;
  stream = false;
  tools = [];
  temperature = none;
  top_p = none;
  stop = none;
  response_format = none;
  extra = [];
}

unfoldable pub all_text : NormalizedRequest → Text
unfolding text_content join
all_text r = join (codes "\n") (map text_content r.messages)

unfoldable pub last_of : List Message → Option Message
last_of [] = none
last_of (m ∷ ms) = elim (last_of ms) [
  | some later ↦ some later
  | none ↦ if is_user m.role then some m else none
]

unfoldable pub last_user_message : NormalizedRequest → Option Text
unfolding last_of text_content
last_user_message r = elim (last_of r.messages) [ none ↦ none | some m ↦ some (text_content m) ]

unfoldable pub first_user_message : NormalizedRequest → Option Text
unfolding text_content
first_user_message r = elim (find? (λ m. is_user m.role) r.messages) [
  | none ↦ none
  | some m ↦ some (text_content m)
]

unfoldable pub system_text : NormalizedRequest → Text
unfolding text_content join
system_text r =
    join (codes "\n") (map text_content (filter (λ m. is_system_like m.role) r.messages))

unfoldable pub requires_tools : NormalizedRequest → Bool
requires_tools r = elim r.tools [ [] ↦ false | _ ∷ _ ↦ true ]

unfoldable pub message_has_image : Message → Bool
unfolding has_image
message_has_image m = elim m.content [ none ↦ false | some c ↦ has_image c ]

unfoldable pub requires_vision : NormalizedRequest → Bool
unfolding message_has_image
requires_vision r = any message_has_image r.messages

unfoldable pub tool_tokens : List Text → ℕ
tool_tokens [] = 0
tool_tokens (t ∷ ts) = length t / 4 + tool_tokens ts

-- A text in memory has fewer than 2^62 characters, so nothing here overflows.
unfoldable pub estimated_input_tokens : NormalizedRequest → ℕ
unfolding all_text tool_tokens
estimated_input_tokens r = length (all_text r) / 4 + length r.messages * 4 + tool_tokens r.tools
