-- ===== src/Cache/Collisions.antt =====
-- apps/gateway/src/cache/fingerprint.rs and exact.rs: requests that the exact cache does not tell
-- apart.
use mathlib.Core.List.{append_assoc, append-nil}
use aegis_ai_gateway.Prelude.{◌≡◌, refl, Bool, List, [], ◌∷◌, ◌++◌}
use aegis_ai_gateway.Store.Memory.{MemoryStore, memory_store}
use aegis_ai_gateway.Text.{Text}
use aegis_ai_gateway.Types.Request.{
  NormalizedRequest, Message, Role, role_as_str, text_content, text_message, requires_tools,
  as_text,
}
use aegis_ai_gateway.Usage.{Uuid}
use aegis_ai_gateway.Cache.{
  Codec, print_message, print_messages, hashed_text, compute, cacheability, get_exact,
}

-- Message by message the same roles and texts; images and names may differ.
unfoldable pub SameTexts : List Message → List Message → Type 0
SameTexts [] [] = Unit
SameTexts (m ∷ ms) (n ∷ ns) =
    (m.role ≡ n.role) × (text_content m ≡ text_content n) × SameTexts ms ns
SameTexts _ _ = ⊥

print_messages-SameTexts :
    (ms ns : List Message) → SameTexts ms ns → print_messages ms ≡ print_messages ns
unfolding print_messages print_message SameTexts
print_messages-SameTexts [] [] h = refl
print_messages-SameTexts [] (n ∷ ns) h = absurd h
print_messages-SameTexts (m ∷ ms) [] h = absurd h
print_messages-SameTexts (m ∷ ms) (n ∷ ns) (r, t, h) = simp (r, t, print_messages-SameTexts ms ns h)

get_exact-same_print :
    (d : Codec) (r : NormalizedRequest) (ms : List Message) (org_id : Uuid) (zero : Bool)
    (s : MemoryStore)
    → print_messages ms ≡ print_messages r.messages
    → get_exact d (record r { messages = ms }) org_id zero s ≡ get_exact d r org_id zero s
unfolding get_exact compute hashed_text cacheability requires_tools
get_exact-same_print d r ms org_id zero s h =
    let same : compute d (record r { messages = ms }) org_id ≡ compute d r org_id =
      rw (compute, hashed_text, h) refl in
    rw (get_exact, same) refl

-- Joined by the two separators, two texts print as the texts of two messages do.
print_messages-joined :
    (role role' : Role) (a b : Text)
    → print_messages (text_message role (a ++ 0x1e ∷ (role_as_str role' ++ 0x1f ∷ b)) ∷ [])
      ≡ print_messages (text_message role a ∷ text_message role' b ∷ [])
unfolding print_messages print_message text_message text_content as_text
print_messages-joined role role' a b = simp (append_assoc, append-nil)

-- Two requests that are the same but for their messages, which have the same roles and texts one by
-- one, whatever their images and names, get the same from the cache. So do two requests that are the
-- same but for their messages, two in the one, and a single one in the other, with the role of the
-- first and the two texts joined by a separator, the name of the second role and a separator.
pub get_exact_confuses :
    (d : Codec) (r : NormalizedRequest) (org_id : Uuid) (zero : Bool) (s : MemoryStore)
    (ms : List Message) (role role' : Role) (a b : Text)
    → SameTexts ms r.messages
    → (get_exact d (record r { messages = ms }) org_id zero s ≡ get_exact d r org_id zero s)
      × (get_exact d
            (record r {
              messages = text_message role (a ++ 0x1e ∷ (role_as_str role' ++ 0x1f ∷ b)) ∷ [];
            })
            org_id
            zero
            s
          ≡ get_exact d
              (record r { messages = text_message role a ∷ text_message role' b ∷ [] })
              org_id
              zero
              s)
get_exact_confuses d r org_id zero s ms role role' a b h = (
  get_exact-same_print d r ms org_id zero s (print_messages-SameTexts ms r.messages h),
  get_exact-same_print d (record r { messages = text_message role a ∷ text_message role' b ∷ [] })
      (text_message role (a ++ 0x1e ∷ (role_as_str role' ++ 0x1f ∷ b)) ∷ []) org_id zero s
      (print_messages-joined role role' a b),
)
