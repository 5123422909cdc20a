-- ===== src/Store/Memory.antt =====
-- `MemoryStore` of apps/gateway/src/store.rs. The lock is held for the whole of each operation, so
-- an operation is one step on the state; `poisoned` says that a holder of the lock has panicked. `now`
-- is what `now_millis` reads: only the environment moves it.
pub mod Counter
pub mod Window
pub mod Values
mod Tests
use Prim.Native.Nat.{◌-◌}
use aegis_ai_gateway.Prelude.{
  ℕ, ◌+◌, ◌*◌, ◌/◌, ◌%◌, ◌^◌, min, max, ◌≡◌, refl, Bool, true, false, List, [], ◌∷◌, ◌++◌, Option,
  none, some, ltb, ◌==◌, length, take, drop, filter, if◌then◌else◌, leb, suc, zero,
}
use aegis_ai_gateway.Int.{ℤ, pos, eqb_ℤ}
use aegis_ai_gateway.Int.I64.{saturating_add}
use aegis_ai_gateway.Error.{Result, ok, err, AegisError, store}
use aegis_ai_gateway.Text.{Text, codes, text_eq, starts_with}
use aegis_ai_gateway.Text.Decimal.{to_string, parse}
use aegis_ai_gateway.Table.{Table, lookup, insert, remove, remove_if, keys}
use aegis_ai_gateway.Store.{KvStore, RateLimitOutcome, StreamEntry}

pub record Entry : Type 0 where
  pub value : Text
  pub expires_at_ms : Option ℕ

pub record MemoryStore : Type 0 where
  pub poisoned : Bool
  pub values : Table Entry
  pub windows : Table (List ℕ)
  pub streams : Table (List StreamEntry)
  pub stream_seq : ℕ
  pub now : ℕ

abbrev u64_add : ℕ → ℕ → ℕ
u64_add a b = (a + b) % 2 ^ 64

abbrev as_u32 : ℕ → ℕ
as_u32 n = n % 2 ^ 32

-- What an operation does when it gets the lock, and the error when it does not.
abbrev pub with_lock {ℓ} :
    {A : Type ℓ} → (MemoryStore → Result A × MemoryStore) → MemoryStore → Result A × MemoryStore
with_lock op s = if s.poisoned then (err (store "memory store poisoned"), s) else op s

-- `expires_at_ms.is_none_or(|e| e > now)`
unfoldable pub is_live : Entry → ℕ → Bool
is_live e now = elim e.expires_at_ms [ none ↦ true | some t ↦ ltb now t ]

drop_expired : Text → Option Entry → MemoryStore → Result (Option Text) × MemoryStore
drop_expired key none s = (ok none, s)
drop_expired key (some e) s =
    if is_live e s.now
    then (ok (some e.value), s)
    else (ok none, record s { values = remove key s.values })

unfoldable pub get : Text → MemoryStore → Result (Option Text) × MemoryStore
unfolding drop_expired is_live
get key = with_lock λ s. drop_expired key (lookup key s.values) s

unfoldable pub set_ex : Text → Text → ℕ → MemoryStore → Result (Unit {0}) × MemoryStore
set_ex key value ttl_ms = with_lock λ s. (
  ok tt,
  record s {
    values =
        insert key (record { value = value; expires_at_ms = some (u64_add s.now ttl_ms) }) s.values;
  },
)

unfoldable pub del : Text → MemoryStore → Result Bool × MemoryStore
del key = with_lock λ s. (
  ok (elim (lookup key s.values) [ none ↦ false | some _ ↦ true ]),
  record s { values = remove key s.values },
)

unfoldable pub del_prefix : Text → MemoryStore → Result ℕ × MemoryStore
del_prefix prefix = with_lock λ s. (
  ok (length (filter (starts_with prefix) (keys s.values))),
  record s { values = remove_if (starts_with prefix) s.values },
)

-- The live number at a key, or zero.
unfoldable pub number_of : Option Entry → ℕ → ℤ
number_of none now = pos 0
number_of (some e) now =
    if is_live e now then elim (parse e.value) [ none ↦ pos 0 | some n ↦ n ] else pos 0

unfoldable pub expiry_of : Option Entry → Option ℕ
expiry_of none = none
expiry_of (some e) = e.expires_at_ms

unfoldable pub incr_by : Text → ℤ → Option ℕ → MemoryStore → Result ℤ × MemoryStore
unfolding number_of expiry_of is_live
incr_by key by ttl = with_lock λ s.
    let found = lookup key s.values in
    let existing = number_of found s.now in
    let updated = saturating_add existing by in
    let expires : Option ℕ =
      if eqb_ℤ existing (pos 0)
      then elim ttl [ none ↦ none | some t ↦ some (u64_add s.now t) ]
      else expiry_of found in
    (
      ok updated,
      record s {
        values =
            insert key (record { value = to_string updated; expires_at_ms = expires }) s.values;
      },
    )

-- `iter().copied().min().unwrap_or(now)`
oldest : ℕ → List ℕ → ℕ
oldest now [] = now
oldest now (t ∷ []) = t
oldest now (t ∷ u ∷ ts) = min t (oldest now (u ∷ ts))

hits_at : Option (List ℕ) → List ℕ
hits_at none = []
hits_at (some ts) = ts

-- `hits.retain(|&t| t + window_ms > now)`
retained : ℕ → ℕ → List ℕ → List ℕ
retained window_ms now = filter (λ t. ltb now (u64_add t window_ms))

admit : ℕ → ℕ → ℕ → List ℕ → RateLimitOutcome × List ℕ
unfolding oldest
admit limit window_ms now hits =
    if ltb (as_u32 (length hits)) limit
    then (
      record {
        allowed = true;
        remaining = (limit + 2 ^ 32 - as_u32 (length (hits ++ now ∷ []))) % 2 ^ 32;
        retry_after_secs = 0;
      },
      hits ++ now ∷ [],
    )
    else (
      record {
        allowed = false;
        remaining = 0;
        retry_after_secs = max ((u64_add (oldest now hits) window_ms - now) / 1000) 1;
      },
      hits,
    )

unfoldable pub rate_limit : Text → ℕ → ℕ → MemoryStore → Result RateLimitOutcome × MemoryStore
unfolding hits_at retained admit
rate_limit key limit window_ms = with_lock λ s.
    let hits = retained window_ms s.now (hits_at (lookup key s.windows)) in
    let (outcome, hits') = admit limit window_ms s.now hits in
    (ok outcome, record s { windows = insert key hits' s.windows })

entries_at : Option (List StreamEntry) → List StreamEntry
entries_at none = []
entries_at (some es) = es

unfoldable pub stream_append : Text → Text → ℕ → MemoryStore → Result Text × MemoryStore
unfolding entries_at
stream_append stream payload max_len = with_lock λ s.
    let seq = u64_add s.stream_seq 1 in
    let id = to_string (pos s.now) ++ (b'-' ∷ to_string (pos seq)) in
    let entries =
      entries_at (lookup stream s.streams) ++ record { id = id; payload = payload } ∷ [] in
    (
      ok id,
      record s {
        stream_seq = seq;
        streams = insert stream (drop (length entries - max_len) entries) s.streams;
      },
    )

-- The entries behind the one with this id, or all where there is none.
behind : Text → List StreamEntry → Option (List StreamEntry)
behind id [] = none
behind id (e ∷ es) = if text_eq e.id id then some es else behind id es

after : Text → List StreamEntry → List StreamEntry
unfolding behind
after after_id entries =
    if text_eq after_id (codes "0")
    then entries
    else elim (behind after_id entries) [ none ↦ entries | some es ↦ es ]

unfoldable pub stream_read : Text → Text → ℕ → MemoryStore → Result (List StreamEntry) × MemoryStore
unfolding entries_at after
stream_read stream after_id count =
    with_lock λ s. (ok (take count (after after_id (entries_at (lookup stream s.streams)))), s)

instance abbrev pub memory_store : KvStore MemoryStore
memory_store = record {
  get = get;
  set_ex = set_ex;
  del = del;
  del_prefix = del_prefix;
  incr_by = incr_by;
  rate_limit = rate_limit;
  stream_append = stream_append;
  stream_read = stream_read;
}
