-- ===== src/Store/Memory/Counter.antt =====
-- A key of `MemoryStore` as a counter: the number that `get` would parse, or zero.
use aegis_ai_gateway.Prelude.{
  ℕ, ◌∷◌, ◌++◌, ◌+◌, ◌%◌, ◌^◌, ◌<◌, ◌≡◌, refl, arith, false, Option, none, some, Option-cases,
  Bool-cases, inl, inr, if◌then◌else◌,
}
use aegis_ai_gateway.Int.{ℤ, pos, eqb_ℤ}
use aegis_ai_gateway.Int.I64.{InI64, saturating_add, saturating_add-InI64}
use aegis_ai_gateway.Error.{ok}
use aegis_ai_gateway.Text.{Text, text_eq}
use aegis_ai_gateway.Text.Equality.{text_eq_iff}
use aegis_ai_gateway.Text.Decimal.{to_string, parse}
use aegis_ai_gateway.Text.Decimal.RoundTrip.{parse-to_string, parse-InI64}
use aegis_ai_gateway.Table.{lookup, lookup-insert, lookup-remove}
use aegis_ai_gateway.Store.Counters.{Counters, read_number}
use aegis_ai_gateway.Store.Memory.{
  memory_store, Entry, MemoryStore, is_live, number_of, expiry_of, get, incr_by, stream_append,
}

unfoldable pub counter : Text → MemoryStore → ℤ
unfolding number_of
counter key s = number_of (lookup key s.values) s.now

-- An entry written by `incr_by` is live: it has a fresh expiry, or the one that made it count.
written_is_live :
    (o : Option Entry) (now t : ℕ) (v : ℤ)
    → InI64 v
    → 0 < t
    → now + t < 2 ^ 64
    → number_of
        (some (record {
          value = to_string v;
          expires_at_ms =
              if eqb_ℤ (number_of o now) (pos 0) then some ((now + t) % 2 ^ 64) else expiry_of o;
        }))
        now
      ≡ v
unfolding number_of expiry_of is_live
written_is_live none now t v r h k = ground (arith, parse-to_string v r)
written_is_live (some e) now t v r h k = ground (arith, parse-to_string v r)

pub record IsUp (s : MemoryStore) : Type 0 where
  pub usable : s.poisoned ≡ false
  pub clock_fits : s.now + 2 ^ 40 < 2 ^ 64

number_in_range : (o : Option Entry) (now : ℕ) → InI64 (number_of o now)
unfolding number_of
number_in_range none now = omega arith
number_in_range (some e) now = elim (Option-cases (parse e.value)) [
  | inl q ↦ rw q (ground arith)
  | inr (a, q) ↦ let fits = parse-InI64 e.value a q in rw q (ground arith)
]

pub counter_in_range : (j : Text) (s : MemoryStore) → IsUp s → InI64 (counter j s)
unfolding counter
counter_in_range j s u = number_in_range (lookup j s.values) s.now

pub get_number : (j : Text) (s : MemoryStore) → IsUp s → read_number (get j s).0 ≡ counter j s
unfolding get counter read_number
get_number j s u = ground arith

pub get_keeps : (i j : Text) (s : MemoryStore) → IsUp s → counter j (get i s).1 ≡ counter j s
unfolding get counter number_of
get_keeps i j s u = ground (arith, lookup-remove i j s.values, text_eq_iff i j)

pub get-IsUp : (j : Text) (s : MemoryStore) → IsUp s → IsUp (get j s).1
unfolding get
get-IsUp j s u = ground arith

pub incr_total :
    (i : Text) (by : ℤ) (ttl : ℕ) (s : MemoryStore)
    → IsUp s
    → 0 < ttl
    → ttl < 2 ^ 40
    → (incr_by i by (some ttl) s).0 ≡ ok (saturating_add (counter i s) by)
unfolding incr_by counter
incr_total i by ttl s u h k = rw u.usable

pub incr-IsUp :
    (i : Text) (by : ℤ) (ttl : ℕ) (s : MemoryStore) → IsUp s → IsUp (incr_by i by (some ttl) s).1
unfolding incr_by
incr-IsUp i by ttl s u = ground arith

-- While the store answers, and for a time to live between 1 and 2^40 milliseconds: adding to
-- a key makes its number the saturated sum, and leaves the number at every other key.
pub incr_counter :
    (i j : Text) (by : ℤ) (ttl : ℕ) (s : MemoryStore)
    → IsUp s
    → 0 < ttl
    → ttl < 2 ^ 40
    → counter j (incr_by i by (some ttl) s).1
      ≡ (if text_eq i j then saturating_add (counter i s) by else counter j s)
unfolding incr_by counter
incr_counter i j by ttl s u h k =
    let found = lookup i s.values in
    let total = saturating_add (number_of found s.now) by in
    let live =
      written_is_live found s.now ttl total (saturating_add-InI64 (number_of found s.now) by) h
        (omega (arith, u.clock_fits)) in
    rw (u.usable, lookup-insert i j)
      (elim (Bool-cases (text_eq i j)) [ inl e ↦ rw e live | inr e ↦ rw e ])

pub append_answers :
    (stream payload : Text) (max_len : ℕ) (s : MemoryStore)
    → IsUp s
    → (id : Text) × ((stream_append stream payload max_len s).0 ≡ ok id)
unfolding stream_append
append_answers stream payload max_len s u = (
  to_string (pos s.now) ++ (b'-' ∷ to_string (pos ((s.stream_seq + 1) % 2 ^ 64))),
  rw u.usable refl,
)

pub append_keeps :
    (stream payload : Text) (max_len : ℕ) (j : Text) (s : MemoryStore)
    → IsUp s
    → counter j (stream_append stream payload max_len s).1 ≡ counter j s
unfolding stream_append counter
append_keeps stream payload max_len j s u = ground arith

pub append-IsUp :
    (stream payload : Text) (max_len : ℕ) (s : MemoryStore)
    → IsUp s
    → IsUp (stream_append stream payload max_len s).1
unfolding stream_append
append-IsUp stream payload max_len s u = ground arith

-- `MemoryStore` keeps counters as its clients rely on.
abbrev pub memory_counters : Counters MemoryStore
memory_counters = record {
  IsUp = IsUp;
  counter = counter;
  counter_in_range = counter_in_range;
  get_number = get_number;
  get_keeps = get_keeps;
  get_up = get-IsUp;
  incr_total = incr_total;
  incr_counter = incr_counter;
  incr_up = incr-IsUp;
  append_answers = append_answers;
  append_keeps = append_keeps;
  append_up = append-IsUp;
}
