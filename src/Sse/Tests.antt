-- ===== src/Sse/Tests.antt =====
-- One event in two chunks.
use aegis_ai_gateway.Prelude.{◌≡◌, List, [], ◌∷◌}
use aegis_ai_gateway.Sse.{take_lines, push_all}
use aegis_ai_gateway.Sse.Chunks.{concat, push_all-take_lines}
use aegis_ai_gateway.Text.{Text, codes}

abbrev two_chunks : List Text
two_chunks = codes "data: h" ∷ codes "i\n" ∷ []

push_all-take_lines_example : push_all [] two_chunks ≡ take_lines [] (concat two_chunks)
push_all-take_lines_example = push_all-take_lines [] two_chunks tt
