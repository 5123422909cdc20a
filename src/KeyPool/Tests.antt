-- ===== src/KeyPool/Tests.antt =====
-- Three keys, and calls for two providers.
use aegis_ai_gateway.Prelude.{◌≡◌, ◌+◌, ◌%◌, refl, arith, List, [], ◌∷◌, length}
use aegis_ai_gateway.Error.{ok}
use aegis_ai_gateway.Text.{Text, codes, text_eq}
use aegis_ai_gateway.Table.{lookup, insert}
use aegis_ai_gateway.KeyPool.{Keys, shared_keys, cursor_of, nth, next_credential, new_credential}
use aegis_ai_gateway.KeyPool.Turns.{asked, times, next_credential_turns}

abbrev config : Keys
config =
    (codes "openai", codes "a" ∷ codes "b" ∷ codes "c" ∷ []) ∷ (codes "google", codes "g" ∷ []) ∷ []

abbrev calls : List Text
calls = codes "openai" ∷ codes "google" ∷ codes "openai" ∷ codes "openai" ∷ []

goes_round :
    (next_credential config (codes "openai") (asked config calls [])).0
    ≡ ok (new_credential (codes "a"))
unfolding next_credential asked new_credential shared_keys lookup insert text_eq
goes_round = refl

next_credential_turns_example :
    (next_credential config (codes "openai") (asked config calls [])).0
    ≡ ok (
        new_credential (
          nth (codes "a") (codes "a" ∷ codes "b" ∷ codes "c" ∷ []) (
            (cursor_of (codes "openai") [] + times (codes "openai") calls)
            % length (codes "a" ∷ codes "b" ∷ codes "c" ∷ []))))
unfolding shared_keys lookup text_eq cursor_of times
next_credential_turns_example =
    next_credential_turns config (codes "openai") (codes "a") (codes "b" ∷ codes "c" ∷ []) refl
      calls [] (omega arith)
