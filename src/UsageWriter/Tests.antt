-- ===== src/UsageWriter/Tests.antt =====
-- A batch of one entry, over a database that is the list of the records that it took.
use mathlib.Core.List.{Memᴰ}
use mathlib.Core.List.Memᴰ.{head, tail}
use aegis_ai_gateway.Prelude.{
  ◌+◌, ◌≡◌, refl, false, Option, none, some, List, [], ◌∷◌, ◌++◌, length,
}
use aegis_ai_gateway.Int.{pos}
use aegis_ai_gateway.Store.{StreamEntry}
use aegis_ai_gateway.Text.{Text, codes}
use aegis_ai_gateway.Usage.{UsageEvent}
use aegis_ai_gateway.UsageWriter.{Records, new_row, no_batch, consume}
use aegis_ai_gateway.UsageWriter.Batch.{
  KeepsRows, IsStop, cursor_after, handled, consume_loses_nothing,
}

abbrev one_event : UsageEvent
one_event = record {
  request_id = codes "r";
  org_id = codes "o";
  api_key_id = some (codes "k");
  team_id = some (codes "t");
  user_id = none;
  requested_model = codes "m";
  served_model = codes "m";
  provider = codes "p";
  input_tokens = 10;
  output_tokens = 5;
  cached_input_tokens = 0;
  cache_write_tokens = 0;
  tokens_estimated = false;
  baseline_cost_mc = pos 30;
  actual_cost_mc = pos 30;
  input_cost_mc = pos 20;
  output_cost_mc = pos 10;
  gross_savings_mc = pos 0;
  aegis_fee_mc = pos 0;
  routing_savings_mc = pos 0;
  compression_savings_mc = pos 0;
  cache_savings_mc = pos 0;
  latency_ms = 7;
  cache_hit = false;
  cache_type = none;
  routing_reason = codes "passthrough";
  status_code = 200;
  error_type = none;
  tokens_saved_by_compression = 0;
  cache_bust_hits = 0;
  region = some (codes "eu");
  reserved_mc = pos 50;
  reserved_tokens = pos 0;
  created_at = record { year = 7; month = 1 };
}

abbrev rows : Records (List UsageEvent)
rows = record { insert_usage_record = λ e d. (new_row, e ∷ d); upsert_daily_aggregate = λ e d. d }

abbrev read_entry : Text → Option UsageEvent
read_entry payload = some one_event

abbrev IsRow : UsageEvent → List UsageEvent → Type 0
IsRow e d = Memᴰ e d

rows-KeepsRows : KeepsRows rows read_entry IsRow
rows-KeepsRows = (λ e d h. head refl, λ e d h. head refl, λ e f d p. tail p, λ e f d p. p)

abbrev entries : List StreamEntry
entries = record { id = codes "7"; payload = codes "{}" } ∷ []

consume_loses_nothing_example :
    (done : List StreamEntry) × (rest : List StreamEntry) × (entries ≡ done ++ rest)
    × ((consume rows read_entry entries (codes "0") no_batch []).1 ≡ cursor_after done (codes "0"))
    × (handled (consume rows read_entry entries (codes "0") no_batch []).0
        ≡ handled no_batch + length done)
    × ((x : StreamEntry) (e : UsageEvent)
        → Memᴰ x done
        → read_entry x.payload ≡ some e
        → IsRow e (consume rows read_entry entries (codes "0") no_batch []).2)
    × IsStop rows read_entry IsRow rest
consume_loses_nothing_example =
    consume_loses_nothing rows read_entry IsRow entries (codes "0") no_batch [] rows-KeepsRows
