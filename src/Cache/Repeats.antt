-- ===== src/Cache/Repeats.antt =====
-- apps/gateway/src/cache/exact.rs: what was stored for a request answers its repeats.
use aegis_ai_gateway.Prelude.{
  ℕ, ◌+◌, ◌^◌, ◌<◌, ◌%◌, ◌≡◌, refl, arith, Bool, Option, subst, true, false, none, some,
  if◌then◌else◌, ltb,
}
use aegis_ai_gateway.Error.{Result, ok}
use aegis_ai_gateway.Store.Memory.{MemoryStore, memory_store, get, set_ex}
use aegis_ai_gateway.Store.Memory.Values.{at_time, get_written}
use aegis_ai_gateway.Text.{Text}
use aegis_ai_gateway.Types.Request.{NormalizedRequest}
use aegis_ai_gateway.Types.Response.{NormalizedResponse}
use aegis_ai_gateway.Usage.{Uuid}
use aegis_ai_gateway.Cache.{
  Codec, CachedResponse, is_cacheable, cacheability, key_of, decode_entry, get_exact, put_exact,
  stored,
}

-- The store as the put of a response leaves it.
put_exact_result :
    (d : Codec) (ttl now : ℕ) (r : NormalizedRequest) (org_id : Uuid) (zero : Bool)
    (answer : NormalizedResponse) (model payload : Text) (s : MemoryStore)
    → s.poisoned ≡ false
    → is_cacheable (cacheability r zero) ≡ true
    → d.to_json (record { response = answer; served_model = model; stored_at = now }) ≡ ok payload
    → put_exact d ttl now r org_id zero answer model s
      ≡ (ok true, (set_ex (key_of d r org_id) payload ttl s).1)
unfolding put_exact stored set_ex
put_exact_result d ttl now r org_id zero answer model payload s up c e = rw (c, e, up) refl

read_back :
    (d : Codec) (key payload : Text) (c : CachedResponse) (b : Bool) (found : Result (Option Text))
    (s : MemoryStore)
    → d.from_json payload ≡ some c
    → found ≡ ok (if b then some payload else none)
    → (decode_entry d key found s).0 ≡ ok (if b then some c else none)
unfolding decode_entry
read_back d key payload c true found s e h = rw (h, decode_entry, e) refl
read_back d key payload c false found s e h = rw (h, decode_entry) refl

within : (n m : ℕ) → n + m < 2 ^ 64 → (n + m) % 2 ^ 64 ≡ n + m
within n m h = omega (arith, h)

-- A response of a request that may be cached, put into a store that works, and read back when
-- what serde_json wrote parses as what it was, is the answer to the same request of the organisation
-- at every clock before its time to live is over, and from then on there is no answer.
pub get_exact-put_exact :
    (d : Codec) (ttl now : ℕ) (r : NormalizedRequest) (org_id : Uuid) (zero : Bool)
    (answer : NormalizedResponse) (model payload : Text) (s : MemoryStore) (t : ℕ)
    → s.poisoned ≡ false
    → is_cacheable (cacheability r zero) ≡ true
    → d.to_json (record { response = answer; served_model = model; stored_at = now }) ≡ ok payload
    → d.from_json payload
      ≡ some (record { response = answer; served_model = model; stored_at = now })
    → s.now + ttl < 2 ^ 64
    → ((put_exact d ttl now r org_id zero answer model s).0 ≡ ok true)
      × ((get_exact d r org_id zero
            (at_time t (put_exact d ttl now r org_id zero answer model s).1)).0
          ≡ ok (
              if ltb t (s.now + ttl)
              then some (record { response = answer; served_model = model; stored_at = now })
              else none))
unfolding get_exact
get_exact-put_exact d ttl now r org_id zero answer model payload s t up c e e' fits =
    let put = put_exact_result d ttl now r org_id zero answer model payload s up c e in
    (
      rw put refl,
      rw put (
          rw c (
            let key = key_of d r org_id in
            let later = at_time t (set_ex key payload ttl s).1 in
            let read : (get key later).0 ≡ ok (if ltb t (s.now + ttl) then some payload else none) =
              subst (λ n. (get key later).0 ≡ ok (if ltb t n then some payload else none))
                (within s.now ttl fits) (get_written key payload ttl s t up) in
            read_back d key payload
              (record { response = answer; served_model = model; stored_at = now })
              (ltb t (s.now + ttl)) (get key later).0 (get key later).1 e' read)),
    )
