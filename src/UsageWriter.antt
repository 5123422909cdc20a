-- ===== src/UsageWriter.antt =====
-- apps/gateway/src/workers/usage_writer.rs: from the stream to the database, batch by batch. What
-- decodes an entry (serde_json) and what writes to the database (SQL) are arguments; the database
-- is a state `D` that the writes pass on. Logging is left out.
pub mod Batch
mod Tests
use aegis_ai_gateway.Prelude.{
  ℕ, ◌+◌, Bool, true, false, Option, none, some, List, [], ◌∷◌, ◌==◌, length, if◌then◌else◌,
}
use aegis_ai_gateway.Error.{Result, ok, err}
use aegis_ai_gateway.Store.{KvStore, StreamEntry}
use aegis_ai_gateway.Text.{Text, codes}
use aegis_ai_gateway.Usage.{UsageEvent, usage_stream}

abbrev pub cursor_key : Text
cursor_key = codes "aegis:usage_writer:cursor"

abbrev pub batch_size : ℕ
batch_size = 100

-- 30 days.
abbrev pub cursor_ttl : ℕ
cursor_ttl = 2_592_000_000

pub record BatchResult : Type 0 where
  pub read : ℕ
  pub inserted : ℕ
  pub duplicates : ℕ
  pub malformed : ℕ

abbrev pub no_batch : BatchResult
no_batch = record { read = 0; inserted = 0; duplicates = 0; malformed = 0 }

unfoldable pub batch_is_empty : BatchResult → Bool
batch_is_empty r = r.read == 0

-- `insert_usage_record`: a new row, a row that was there, or an error.
pub data Insertion : Type 0 where
  new_row known_row failed_row : Insertion

-- The database of the worker.
pub record Records (D : Type 0) : Type 0 where
  pub insert_usage_record : UsageEvent → D → Insertion × D
  pub upsert_daily_aggregate : UsageEvent → D → D

-- What became of one entry; after `halted` the batch stops.
pub data Outcome : Type 0 where
  was_inserted was_known was_malformed halted : Outcome

abbrev pub is_halted : Outcome → Bool
is_halted halted = true
is_halted _ = false

unfoldable pub count_outcome : Outcome → BatchResult → BatchResult
count_outcome was_inserted b = record b { inserted = b.inserted + 1 }
count_outcome was_known b = record b { duplicates = b.duplicates + 1 }
count_outcome was_malformed b = record b { malformed = b.malformed + 1 }
count_outcome halted b = b

module _ {D : Type 0} (r : Records D) (decode : Text → Option UsageEvent) where
  -- A new row also goes into the daily rollup.
  unfoldable pub after_insert : UsageEvent → Insertion × D → Outcome × D
  after_insert event (new_row, d) = (was_inserted, r.upsert_daily_aggregate event d)
  after_insert event (known_row, d) = (was_known, d)
  after_insert event (failed_row, d) = (halted, d)

  unfoldable pub persist : Option UsageEvent → D → Outcome × D
  unfolding after_insert
  persist none d = (was_malformed, d)
  persist (some event) d = after_insert event (r.insert_usage_record event d)

  -- The loop over the entries: the counts, the id of the last entry that is done, the database.
  unfoldable pub consume :
      List StreamEntry → (last_id : Text) → BatchResult → D → BatchResult × Text × D
  unfolding persist count_outcome
  consume [] last_id result d = (result, last_id, d)
  consume (entry ∷ entries) last_id result d =
      let done = persist (decode entry.payload) d in
      let rest = consume entries entry.id (count_outcome done.0 result) done.1 in
      if is_halted done.0 then (result, last_id, done.1) else rest

-- `.ok().flatten()`, or the beginning of the stream.
unfoldable pub cursor_of : Result (Option Text) → Text
cursor_of (ok (some id)) = id
cursor_of _ = codes "0"

module _ {S : Type 0} ⦃k : KvStore S⦄ where
  unfoldable pub read_cursor : S → Text × S
  unfolding cursor_of
  read_cursor s = let (found, s1) = k.get cursor_key s in (cursor_of found, s1)

  unfoldable pub write_cursor : Text → S → S
  write_cursor id s = (k.set_ex cursor_key id cursor_ttl s).1

  module _ {D : Type 0} (r : Records D) (decode : Text → Option UsageEvent) where
    -- `pool` is what `state.db()` answers.
    unfoldable pub write_batch :
        (pool : Result (Unit {0}))
        → (cursor : Text) → List StreamEntry
        → S
        → D
        → Result BatchResult × S × D
    unfolding consume write_cursor
    write_batch pool cursor [] s d = (ok no_batch, s, d)
    write_batch (err e) cursor (entry ∷ entries) s d = (err e, s, d)
    write_batch (ok _) cursor (entry ∷ entries) s d =
        let start = record no_batch { read = length (entry ∷ entries) } in
        let out = consume r decode (entry ∷ entries) cursor start d in
        (ok out.0, write_cursor out.1 s, out.2)

    unfoldable pub process_batch : (pool : Result (Unit {0})) → S → D → Result BatchResult × S × D
    unfolding read_cursor write_batch
    process_batch pool s d =
        let (cursor, s1) = read_cursor s in
        let (entries, s2) = k.stream_read usage_stream cursor batch_size s1 in
        elim entries [ err e ↦ (err e, s2, d) | ok l ↦ write_batch pool cursor l s2 d ]
