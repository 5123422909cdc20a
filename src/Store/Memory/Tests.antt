-- ===== src/Store/Memory/Tests.antt =====
-- Three calls of a window of `MemoryStore`.
use aegis_ai_gateway.Prelude.{◌≤◌, ◌≡◌, refl, arith, false, none, [], ◌∷◌, length}
use aegis_ai_gateway.Table.{lookup}
use aegis_ai_gateway.Text.{codes}
use aegis_ai_gateway.Store.Memory.{MemoryStore}
use aegis_ai_gateway.Store.Memory.Window.{calls, active, rate_limit_window}

abbrev empty : MemoryStore
empty = record {
  poisoned = false;
  values = [];
  windows = [];
  streams = [];
  stream_seq = 0;
  now = 1000;
}

no_windows : lookup (codes "k") empty.windows ≡ none
unfolding lookup
no_windows = refl

rate_limit_window_example :
    length (active 60_000 5_000 (calls (codes "k") 2 60_000 (1_000 ∷ 2_000 ∷ 3_000 ∷ []) empty []))
    ≤ 2
rate_limit_window_example =
    rate_limit_window (codes "k") 2 60_000 (1_000 ∷ 2_000 ∷ 3_000 ∷ []) empty 5_000 refl no_windows
      (omega arith, (omega arith, (omega arith, omega arith))) (omega arith) (omega arith)
