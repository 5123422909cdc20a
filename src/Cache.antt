-- ===== src/Cache.antt =====
-- apps/gateway/src/cache/fingerprint.rs and cache/exact.rs: which requests may be answered from the
-- cache, their fingerprint, and the cache of exact repeats. SHA-256 with its printing in hexadecimal,
-- and serde_json, are arguments; a Uuid's bytes stand as the Uuid, and a hash reads a text as a whole.
pub mod Tenants
pub mod Repeats
pub mod Collisions
mod Tests
use aegis_ai_gateway.Prelude.{
  ℕ, ◌-◌, Bool, true, false, Option, none, some, List, [], ◌∷◌, ◌++◌, if◌then◌else◌,
}
use aegis_ai_gateway.Error.{Result, ok, err}
use aegis_ai_gateway.Store.{KvStore}
use aegis_ai_gateway.Text.{Text, codes}
use aegis_ai_gateway.Text.Decimal.{digits}
use aegis_ai_gateway.Types.Request.{
  NormalizedRequest, Message, Temperature, role_as_str, text_content, requires_tools,
}
use aegis_ai_gateway.Types.Response.{NormalizedResponse}
use aegis_ai_gateway.Usage.{Uuid}

pub data Cacheability : Type 0 where
  cacheable non_deterministic tool_use zero_retention streaming : Cacheability

unfoldable pub is_cacheable : Cacheability → Bool
is_cacheable cacheable = true
is_cacheable _ = false

unfoldable pub cacheability_as_str : Cacheability → Text
cacheability_as_str cacheable = codes "cacheable"
cacheability_as_str non_deterministic = codes "non_deterministic"
cacheability_as_str tool_use = codes "tool_use"
cacheability_as_str zero_retention = codes "zero_retention"
cacheability_as_str streaming = codes "streaming"

unfoldable pub is_hot : Option Temperature → Bool
is_hot none = false
is_hot (some t) = t.is_high

unfoldable pub cacheability : NormalizedRequest → (zero_retention : Bool) → Cacheability
unfolding is_hot
cacheability r zero =
    if zero
    then zero_retention
    else if requires_tools r
    then tool_use
    else if r.stream
    then streaming
    else if is_hot r.temperature
    then non_deterministic
    else cacheable

unfoldable pub print_message : Message → Text
print_message m = role_as_str m.role ++ (0x1f ∷ (text_content m ++ 0x1e ∷ []))

unfoldable pub print_messages : List Message → Text
unfolding print_message
print_messages [] = []
print_messages (m ∷ ms) = print_message m ++ print_messages ms

unfoldable pub print_extra : List (Text × Text) → Text
print_extra [] = []
print_extra ((key, value) ∷ rest) = key ++ (0x1f ∷ (value ++ (0x1e ∷ print_extra rest)))

unfoldable pub text_or_empty : Option Text → Text
text_or_empty none = []
text_or_empty (some t) = t

unfoldable pub decimals_or_empty : Option Temperature → Text
decimals_or_empty none = []
decimals_or_empty (some t) = t.decimals

unfoldable pub digits_or_empty : Option ℕ → Text
digits_or_empty none = []
digits_or_empty (some n) = digits n

-- A section of the hashed text, between zero bytes; one that is not there prints nothing.
abbrev pub label : Text → Text
label name = 0 ∷ (name ++ 0 ∷ [])

unfoldable pub labelled : Text → Option Text → Text
labelled name none = []
labelled name (some t) = label name ++ t

unfoldable pub extra_section : List (Text × Text) → Text
unfolding print_extra
extra_section [] = []
extra_section (e ∷ es) = label (codes "extra") ++ print_extra (e ∷ es)

-- What `compute` feeds to the hash.
unfoldable pub hashed_text : NormalizedRequest → Uuid → Text
unfolding print_messages text_or_empty decimals_or_empty digits_or_empty labelled extra_section
hashed_text r org_id =
    codes "aegis-fingerprint-v1"
    ++ (0
        ∷ (org_id
            ++ (label (codes "model")
                ++ (r.model
                    ++ (label (codes "messages")
                        ++ (print_messages r.messages
                            ++ (label (codes "params")
                                ++ (decimals_or_empty r.temperature
                                    ++ (0x1f
                                        ∷ (text_or_empty r.top_p
                                            ++ (0x1f
                                                ∷ (digits_or_empty r.max_tokens
                                                    ++ (labelled (codes "format") r.response_format
                                                        ++ (labelled (codes "stop") r.stop
                                                            ++ extra_section r.extra))))))))))))))

unfoldable pub org_prefix : Uuid → Text
org_prefix org_id = codes "aegis:cache:" ++ (org_id ++ b':' ∷ [])

unfoldable pub cache_key : Uuid → (fingerprint : Text) → Text
cache_key org_id fingerprint = codes "aegis:cache:" ++ (org_id ++ b':' ∷ fingerprint)

pub record CachedResponse : Type 0 where
  pub response : NormalizedResponse
  pub served_model : Text
  pub stored_at : ℕ

-- `age_seconds`; the clock may have been set back.
unfoldable pub age_seconds : (now : ℕ) → CachedResponse → ℕ
age_seconds now c = now - c.stored_at

-- What the cache takes from other crates.
pub record Codec : Type 0 where
  pub sha256_hex : Text → Text
  pub to_json : CachedResponse → Result Text
  pub from_json : Text → Option CachedResponse

unfoldable pub stored {ℓ} : {S : Type ℓ} → Result (Unit {0}) × S → Result Bool × S
stored (ok _, s) = (ok true, s)
stored (err e, s) = (err e, s)

module _ (d : Codec) where
  unfoldable pub compute : NormalizedRequest → Uuid → Text
  compute r org_id = d.sha256_hex (hashed_text r org_id)

  abbrev pub key_of : NormalizedRequest → Uuid → Text
  key_of r org_id = cache_key org_id (compute r org_id)

  module _ {S : Type 0} ⦃k : KvStore S⦄ where
    -- A malformed entry is dropped.
    unfoldable pub decode_entry :
        (key : Text) → Result (Option Text) → S → Result (Option CachedResponse) × S
    decode_entry key (err e) s = (err e, s)
    decode_entry key (ok none) s = (ok none, s)
    decode_entry key (ok (some raw)) s = elim (d.from_json raw) [
      | some cached ↦ (ok (some cached), s)
      | none ↦ (ok none, (k.del key s).1)
    ]

    unfoldable pub get_exact :
        NormalizedRequest → Uuid → Bool → S → Result (Option CachedResponse) × S
    unfolding decode_entry
    get_exact r org_id zero s =
        if is_cacheable (cacheability r zero)
        then (let (found, s1) = k.get (key_of r org_id) s in
            decode_entry (key_of r org_id) found s1)
        else (ok none, s)

    -- `now` is the clock in seconds, `ttl` in milliseconds.
    unfoldable pub put_exact :
        (ttl now : ℕ)
        → NormalizedRequest
        → Uuid
        → Bool
        → NormalizedResponse
        → Text
        → S
        → Result Bool × S
    unfolding stored
    put_exact ttl now r org_id zero response served_model s =
        if is_cacheable (cacheability r zero)
        then (elim (d.to_json
            record { response = response; served_model = served_model; stored_at = now }) [
              | err e ↦ (err e, s)
              | ok payload ↦ stored (k.set_ex (key_of r org_id) payload ttl s)
            ])
        else (ok false, s)

    unfoldable pub invalidate_org : Uuid → S → Result ℕ × S
    invalidate_org org_id s = k.del_prefix (org_prefix org_id) s
