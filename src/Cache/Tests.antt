-- ===== src/Cache/Tests.antt =====
-- The cache with a hash that prints the text itself, and a codec that writes the content alone.
use aegis_ai_gateway.Prelude.{
  ℕ, ◌≡◌, ◌≢◌, true, refl, arith, false, none, some, List, [], ◌∷◌, ◌++◌, ltb, if◌then◌else◌,
}
use aegis_ai_gateway.Error.{ok}
use aegis_ai_gateway.Store.Memory.{MemoryStore, memory_store}
use aegis_ai_gateway.Store.Memory.Values.{at_time}
use aegis_ai_gateway.Text.{Text, codes}
use aegis_ai_gateway.Types.Request.{
  NormalizedRequest, Message, Part, parts, user, system, role_as_str, text_message, text_content,
  requires_tools,
}
use aegis_ai_gateway.Types.Response.{NormalizedResponse}
use aegis_ai_gateway.Cache.{
  Codec, CachedResponse, is_cacheable, cacheability, is_hot, get_exact, put_exact, invalidate_org,
}
use aegis_ai_gateway.Cache.Repeats.{get_exact-put_exact}
use aegis_ai_gateway.Cache.Collisions.{SameTexts, get_exact_confuses}
use aegis_ai_gateway.Cache.Tenants.{get_exact_spared}

abbrev empty : MemoryStore
empty = record {
  poisoned = false;
  values = [];
  windows = [];
  streams = [];
  stream_seq = 0;
  now = 1_000;
}

abbrev answer : Text → NormalizedResponse
answer content = record {
  id = codes "r";
  model = codes "m";
  content = content;
  finish_reason = none;
  usage = record {
    input_tokens = 3;
    output_tokens = 2;
    cached_input_tokens = 0;
    cache_write_tokens = 0;
    estimated = false;
  };
}

abbrev written : Text → CachedResponse
written content = record { response = answer content; served_model = codes "m"; stored_at = 1 }

abbrev codec : Codec
codec = record {
  sha256_hex = λ t. t;
  to_json = λ c. ok c.response.content;
  from_json = λ payload. some (written payload);
}

abbrev request : NormalizedRequest
request = record {
  model = codes "a/m";
  messages = [];
  max_tokens = some 20;
  stream = false;
  tools = [];
  temperature = none;
  top_p = none;
  stop = none;
  response_format = none;
  extra = [];
}

abbrev behind_put : MemoryStore
behind_put =
    at_time 2_000
      (put_exact codec 60_000 1 request (codes "o") false (answer (codes "hello")) (codes "m")
        empty).1

get_exact-put_exact_example :
    ((put_exact codec 60_000 1 request
        (codes "o")
        false
        (answer (codes "hello"))
        (codes "m")
        empty).0
      ≡ ok true)
    × ((get_exact codec request (codes "o") false behind_put).0
        ≡ ok (if ltb 2_000 61_000 then some (written (codes "hello")) else none))
unfolding is_cacheable cacheability requires_tools is_hot
get_exact-put_exact_example =
    get_exact-put_exact codec 60_000 1 request (codes "o") false (answer (codes "hello"))
      (codes "m") (codes "hello") empty 2_000 refl refl refl refl (omega arith)

other_organisation : codes "o" ≢ codes "p"
other_organisation e = let clash : ◌≡◌ {A = ℕ} b'o' b'p' = cc in omega (arith, clash)

get_exact_spared_example :
    ((get_exact codec request (codes "p") false behind_put).0
      ≡ (get_exact codec request (codes "p") false (at_time 2_000 empty)).0)
    × ((get_exact codec request
          (codes "p")
          false
          (at_time 2_000 (invalidate_org codec (codes "o") empty).1)).0
        ≡ (get_exact codec request (codes "p") false (at_time 2_000 empty)).0)
get_exact_spared_example =
    get_exact_spared codec 60_000 1 request request (codes "o") (codes "p") false false
      (answer (codes "hello")) (codes "m") empty 2_000 refl refl other_organisation

abbrev words : Part
words = record { part_type = some (codes "text"); part_text = some (codes "What is this?") }

abbrev picture : Part
picture = record { part_type = some (codes "image_url"); part_text = none }

abbrev asked : List Part → Message
asked ps = record { role = user; content = some (parts ps); name = none }

abbrev question : NormalizedRequest
question = record request { messages = asked (words ∷ picture ∷ []) ∷ [] }

get_exact_confuses_example :
    (get_exact codec
        (record question { messages = asked (words ∷ []) ∷ [] })
        (codes "o")
        false
        behind_put
      ≡ get_exact codec question (codes "o") false behind_put)
    × (get_exact codec
          (record question {
            messages =
                text_message user (codes "a" ++ 0x1e ∷ (role_as_str system ++ 0x1f ∷ codes "b"))
                ∷ [];
          })
          (codes "o")
          false
          behind_put
        ≡ get_exact codec
            (record question {
              messages = text_message user (codes "a") ∷ text_message system (codes "b") ∷ [];
            })
            (codes "o")
            false
            behind_put)
unfolding SameTexts text_content
get_exact_confuses_example =
    get_exact_confuses codec question (codes "o") false behind_put (asked (words ∷ []) ∷ []) user
      system (codes "a") (codes "b") (refl, refl, tt)
