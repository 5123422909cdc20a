-- ===== src/KeyPool.antt =====
-- apps/gateway/src/providers/pool.rs: the gateway's own provider keys, handed out in turn. The key
-- lists are those of the configuration; the state is the table of cursors, each a `usize`.
pub mod Turns
mod Tests
use aegis_ai_gateway.Prelude.{
  ℕ, zero, suc, ◌+◌, ◌%◌, ◌^◌, Bool, true, false, Option, none, some, List, [], ◌∷◌, map, length,
  filter,
}
use aegis_ai_gateway.Error.{Result, ok, err, unauthorized}
use aegis_ai_gateway.Text.{Text}
use aegis_ai_gateway.Text.Order.{text_le}
use aegis_ai_gateway.Sorting.{sort_by}
use aegis_ai_gateway.Table.{Table, lookup, insert}

pub record Credential : Type 0 where
  pub api_key : Text
  pub base_url : Option Text

-- `Credential::new` and `Credential::with_base_url`
unfoldable pub new_credential : Text → Credential
new_credential key = record { api_key = key; base_url = none }

unfoldable pub with_base_url : Text → Text → Credential
with_base_url key url = record { api_key = key; base_url = some url }

abbrev pub Keys : Type 0
Keys = Table (List Text)

unfoldable pub shared_keys : Keys → Text → List Text
shared_keys config provider = elim (lookup provider config) [ none ↦ [] | some keys ↦ keys ]

unfoldable pub cursor_of : Text → Table ℕ → ℕ
cursor_of provider cursors = elim (lookup provider cursors) [ none ↦ 0 | some n ↦ n ]

-- An index into a list that has it.
unfoldable pub nth : Text → List Text → ℕ → Text
nth default [] i = default
nth default (k ∷ ks) zero = k
nth default (k ∷ ks) (suc i) = nth default ks i

-- `fetch_add`, at a list that is not empty.
unfoldable pub take_turn : (provider first : Text) → List Text → Table ℕ → Credential × Table ℕ
unfolding cursor_of nth new_credential
take_turn provider first rest cursors =
    let n = cursor_of provider cursors in
    (
      new_credential (nth first (first ∷ rest) (n % length (first ∷ rest))),
      insert provider ((n + 1) % 2 ^ 64) cursors,
    )

unfoldable pub from_keys : Text → List Text → Table ℕ → Result Credential × Table ℕ
unfolding take_turn
from_keys provider [] cursors = (err (unauthorized "no credential available"), cursors)
from_keys provider (k ∷ ks) cursors =
    let (credential, after) = take_turn provider k ks cursors in (ok credential, after)

unfoldable pub next_credential : Keys → Text → Table ℕ → Result Credential × Table ℕ
unfolding from_keys shared_keys
next_credential config provider cursors = from_keys provider (shared_keys config provider) cursors

abbrev pub has_any : List Text → Bool
has_any [] = false
has_any (_ ∷ _) = true

unfoldable pub has_keys : Keys → Text → Bool
unfolding shared_keys
has_keys config provider = has_any (shared_keys config provider)

unfoldable pub available_providers : Keys → List Text
available_providers config = sort_by text_le (map (λ e. e.0) (filter (λ e. has_any e.1) config))
