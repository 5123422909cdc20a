-- ===== src/Store/Memory/Values.antt =====
-- What `get` reads in `MemoryStore` behind a write of the same key or another.
use aegis_ai_gateway.Prelude.{
  ℕ, ◌+◌, ◌%◌, ◌^◌, ◌≡◌, refl, arith, false, Option, none, some, Option-cases, inl, inr, ltb,
  if◌then◌else◌,
}
use aegis_ai_gateway.Error.{ok}
use aegis_ai_gateway.Table.{lookup, insert, remove_if, lookup-insert, lookup-remove_if}
use aegis_ai_gateway.Text.{Text, text_eq, starts_with}
use aegis_ai_gateway.Text.Equality.{text_eq_refl}
use aegis_ai_gateway.Store.Memory.{u64_add, Entry, MemoryStore, is_live, get, set_ex, del_prefix}

live_value : Option Entry → ℕ → Option Text
live_value none now = none
live_value (some e) now = if is_live e now then some e.value else none

abbrev pub at_time : ℕ → MemoryStore → MemoryStore
at_time t s = record s { now = t }

get_live :
    (j : Text) (s : MemoryStore)
    → s.poisoned ≡ false
    → (get j s).0 ≡ ok (live_value (lookup j s.values) s.now)
unfolding get live_value
get_live j s up = elim (Option-cases (lookup j s.values)) [
  | inl q ↦ rw (up, q) refl
  | inr (e, q) ↦ rw (up, q) (ground arith)
]

pub get_written :
    (i : Text) (v : Text) (ttl : ℕ) (s : MemoryStore) (t : ℕ)
    → s.poisoned ≡ false
    → (get i (at_time t (set_ex i v ttl s).1)).0
      ≡ ok (if ltb t ((s.now + ttl) % 2 ^ 64) then some v else none)
unfolding set_ex live_value is_live
get_written i v ttl s t up =
    let entry : Entry = record { value = v; expires_at_ms = some (u64_add s.now ttl) } in
    let reads =
      get_live i (record s { poisoned = false; values = insert i entry s.values; now = t }) refl in
    rw (up, reads, lookup-insert i i entry s.values, text_eq_refl i) (ground arith)

pub get_unwritten :
    (i j : Text) (v : Text) (ttl : ℕ) (s : MemoryStore) (t : ℕ)
    → s.poisoned ≡ false
    → text_eq i j ≡ false
    → (get j (at_time t (set_ex i v ttl s).1)).0 ≡ (get j (at_time t s)).0
unfolding set_ex
get_unwritten i j v ttl s t up h =
    let entry : Entry = record { value = v; expires_at_ms = some (u64_add s.now ttl) } in
    let reads =
      get_live j (record s { poisoned = false; values = insert i entry s.values; now = t }) refl in
    rw
      (
        up,
        reads,
        lookup-insert i j entry s.values,
        h,
        get_live j (record s { poisoned = false; now = t }) refl,
      )
      refl

pub get_spared :
    (p : Text) (j : Text) (s : MemoryStore) (t : ℕ)
    → s.poisoned ≡ false
    → starts_with p j ≡ false
    → (get j (at_time t (del_prefix p s).1)).0 ≡ (get j (at_time t s)).0
unfolding del_prefix
get_spared p j s t up h =
    let reads =
      get_live j
        (record s { poisoned = false; values = remove_if (starts_with p) s.values; now = t })
        refl in
    rw
      (
        up,
        reads,
        lookup-remove_if (starts_with p) j s.values,
        h,
        get_live j (record s { poisoned = false; now = t }) refl,
      )
      refl
