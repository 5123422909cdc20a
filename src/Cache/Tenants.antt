-- ===== src/Cache/Tenants.antt =====
-- apps/gateway/src/cache/exact.rs: an organisation's entries are out of reach of any other's.
use aegis_ai_gateway.Prelude.{
  ℕ, ◌≡◌, ◌≢◌, subst, refl, arith, Bool, false, Option, none, some, Option-cases, Bool-cases, inl,
  inr, [], ◌∷◌, ◌++◌, length,
}
use aegis_ai_gateway.Error.{Result, Result-cases, ok, err}
use aegis_ai_gateway.Store.Memory.{MemoryStore, memory_store, get, set_ex}
use aegis_ai_gateway.Store.Memory.Values.{at_time, get_unwritten, get_spared}
use aegis_ai_gateway.Text.{Text, text_eq, starts_with, strip_prefix}
use aegis_ai_gateway.Text.Equality.{text_eq_iff}
use aegis_ai_gateway.Types.Request.{NormalizedRequest}
use aegis_ai_gateway.Types.Response.{NormalizedResponse}
use aegis_ai_gateway.Usage.{Uuid}
use aegis_ai_gateway.Cache.{
  Codec, CachedResponse, compute, is_cacheable, cacheability, cache_key, org_prefix, key_of,
  decode_entry, get_exact, put_exact, invalidate_org, stored,
}

text_eq-append :
    (a b u v : Text) → length a ≡ length b → text_eq a b ≡ false → text_eq (a ++ u) (b ++ v) ≡ false
unfolding text_eq
text_eq-append [] [] u v l h = absurd cc
text_eq-append [] (y ∷ b) u v l h = absurd (omega (arith, l))
text_eq-append (x ∷ a) [] u v l h = absurd (omega (arith, l))
text_eq-append (x ∷ a) (y ∷ b) u v l h =
    let shorter : length a ≡ length b = omega (arith, l) in
    let ih = text_eq-append a b u v shorter in ground arith

starts_with-append :
    (a b u v : Text)
    → length a ≡ length b
    → text_eq a b ≡ false
    → starts_with (a ++ u) (b ++ v) ≡ false
unfolding text_eq starts_with strip_prefix
starts_with-append [] [] u v l h = absurd cc
starts_with-append [] (y ∷ b) u v l h = absurd (omega (arith, l))
starts_with-append (x ∷ a) [] u v l h = absurd (omega (arith, l))
starts_with-append (x ∷ a) (y ∷ b) u v l h =
    let shorter : length a ≡ length b = omega (arith, l) in
    let ih = starts_with-append a b u v shorter in ground arith

key_of-other :
    (d : Codec) (q r : NormalizedRequest) (a b : Uuid)
    → length a ≡ length b
    → text_eq a b ≡ false
    → text_eq (key_of d q a) (key_of d r b) ≡ false
unfolding cache_key text_eq
key_of-other d q r a b l h = text_eq-append a b (b':' ∷ compute d q a) (b':' ∷ compute d r b) l h

org_prefix-other :
    (d : Codec) (r : NormalizedRequest) (a b : Uuid)
    → length a ≡ length b
    → text_eq a b ≡ false
    → starts_with (org_prefix a) (key_of d r b) ≡ false
unfolding org_prefix cache_key starts_with strip_prefix
org_prefix-other d r a b l h = starts_with-append a b (b':' ∷ []) (b':' ∷ compute d r b) l h

-- The answer depends on the store only through what it reads at the key.
decode_entry-answer :
    (d : Codec) (key : Text) (found : Result (Option Text)) (s t : MemoryStore)
    → (decode_entry d key found s).0 ≡ (decode_entry d key found t).0
unfolding decode_entry
decode_entry-answer d key (err e) s t = refl
decode_entry-answer d key (ok none) s t = refl
decode_entry-answer d key (ok (some raw)) s t = elim (Option-cases (d.from_json raw)) [
  | inl q ↦ rw (decode_entry, q) refl
  | inr (c, q) ↦ rw (decode_entry, q) refl
]

pub get_exact-answer :
    (d : Codec) (r : NormalizedRequest) (org_id : Uuid) (zero : Bool) (s t : MemoryStore)
    → (get (key_of d r org_id) s).0 ≡ (get (key_of d r org_id) t).0
    → (get_exact d r org_id zero s).0 ≡ (get_exact d r org_id zero t).0
unfolding get_exact
get_exact-answer d r org_id zero s t h = elim (Bool-cases (is_cacheable (cacheability r zero))) [
  | inl q ↦ rw q (
      let key = key_of d r org_id in
      subst
        (λ f.
          (decode_entry d key (get key s).0 (get key s).1).0
          ≡ (decode_entry d key f (get key t).1).0)
        h (decode_entry-answer d key (get key s).0 (get key s).1 (get key t).1))
  | inr q ↦ rw q refl
]

stored-keeps : (x : Result (Unit {0}) × MemoryStore) → (stored x).1 ≡ x.1
unfolding stored
stored-keeps (ok _, s) = refl
stored-keeps (err e, s) = refl

-- What the put of one organisation leaves of the store, read at the key of another.
put_exact-read :
    (d : Codec) (ttl now : ℕ) (q r : NormalizedRequest) (a b : Uuid) (zero : Bool)
    (answer : NormalizedResponse) (model : Text) (s : MemoryStore) (t : ℕ)
    → s.poisoned ≡ false
    → length a ≡ length b
    → text_eq a b ≡ false
    → (get (key_of d r b) (at_time t (put_exact d ttl now q a zero answer model s).1)).0
      ≡ (get (key_of d r b) (at_time t s)).0
unfolding put_exact stored
put_exact-read d ttl now q r a b zero answer model s t up l h =
    let written : CachedResponse = record {
      response = answer;
      served_model = model;
      stored_at = now;
    } in
    elim (Bool-cases (is_cacheable (cacheability q zero))) [
      | inr e ↦ rw e refl
      | inl e ↦ rw e (elim (Result-cases (d.to_json written)) [
        | inl (payload, f) ↦
            rw (f, stored-keeps (set_ex (key_of d q a) payload ttl s))
              (get_unwritten (key_of d q a) (key_of d r b) payload ttl s t up
                (key_of-other d q r a b l h))
        | inr (g, f) ↦ rw f refl
      ])
    ]

text_eq-of_other : (a b : Uuid) → a ≢ b → text_eq a b ≡ false
text_eq-of_other a b h = ground (arith, text_eq_iff a b)

-- Whatever one organisation puts into the cache, and when all its entries are dropped, the cache
-- answers a request of another organisation, now or later, as it would have done before.
pub get_exact_spared :
    (d : Codec) (ttl now : ℕ) (q r : NormalizedRequest) (a b : Uuid) (zero zero' : Bool)
    (answer : NormalizedResponse) (model : Text) (s : MemoryStore) (t : ℕ)
    → s.poisoned ≡ false
    → length a ≡ length b
    → a ≢ b
    → ((get_exact d r b zero' (at_time t (put_exact d ttl now q a zero answer model s).1)).0
        ≡ (get_exact d r b zero' (at_time t s)).0)
      × ((get_exact d r b zero' (at_time t (invalidate_org d a s).1)).0
          ≡ (get_exact d r b zero' (at_time t s)).0)
unfolding invalidate_org
get_exact_spared d ttl now q r a b zero zero' answer model s t up l h =
    let other = text_eq-of_other a b h in
    let put = (put_exact d ttl now q a zero answer model s).1 in
    let dropped = (invalidate_org d a s).1 in
    (
      get_exact-answer d r b zero' (at_time t put) (at_time t s)
          (put_exact-read d ttl now q r a b zero answer model s t up l other),
      get_exact-answer d r b zero' (at_time t dropped) (at_time t s)
          (get_spared (org_prefix a) (key_of d r b) s t up (org_prefix-other d r a b l other)),
    )
