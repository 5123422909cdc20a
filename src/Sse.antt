-- ===== src/Sse.antt =====
-- apps/gateway/src/providers/sse.rs: the decoder of server-sent events. Its state is the buffer.
pub mod Chunks
mod Tests
use aegis_ai_gateway.Prelude.{
  ℕ, Bool, true, false, Option, none, some, List, [], ◌∷◌, ◌++◌, ◌==◌, if◌then◌else◌,
}
use aegis_ai_gateway.Text.{Text, codes, strip_prefix, strip_last, trim, text_eq}

abbrev pub newline : ℕ
newline = 10

abbrev pub carriage_return : ℕ
carriage_return = 13

-- Drops a character from the end if all that follows it has been dropped.
unfoldable pub end_matches : ℕ → ℕ → Text → Text
end_matches x c [] = if c == x then [] else c ∷ []
end_matches x c (d ∷ r) = c ∷ d ∷ r

unfoldable pub trim_end_matches : ℕ → Text → Text
unfolding end_matches
trim_end_matches x [] = []
trim_end_matches x (c ∷ s) = end_matches x c (trim_end_matches x s)

-- The payload of a line, if it is a `data:` line.
unfoldable pub payload_of : Text → List Text
payload_of line = elim (strip_prefix (codes "data:") line) [ none ↦ [] | some p ↦ trim p ∷ [] ]

-- The `while` loop, as one pass: `line` is what stands before the next newline so far. It returns
-- the payloads and the partial line that is left.
unfoldable pub take_lines : (line rest : Text) → List Text × Text
unfolding payload_of trim_end_matches
take_lines line [] = ([], line)
take_lines line (c ∷ rest) =
    let ended = take_lines [] rest in
    let longer = take_lines (line ++ c ∷ []) rest in
    if c == newline
    then (payload_of (trim_end_matches carriage_return line) ++ ended.0, ended.1)
    else longer

unfoldable pub push : (buffer chunk : Text) → List Text × Text
unfolding take_lines
push buffer chunk = take_lines [] (buffer ++ chunk)

-- `str::lines`: a line ends with a newline or with a carriage return and a newline.
unfoldable pub lines_from : (line rest : Text) → List Text
lines_from [] [] = []
lines_from (x ∷ line) [] = (x ∷ line) ∷ []
lines_from line (c ∷ rest) =
    let ended = lines_from [] rest in
    let longer = lines_from (line ++ c ∷ []) rest in
    if c == newline
    then (elim (strip_last carriage_return line) [ none ↦ line | some l ↦ l ]) ∷ ended
    else longer

unfoldable pub payloads_of : List Text → List Text
unfolding payload_of
payloads_of [] = []
payloads_of (l ∷ ls) = payload_of l ++ payloads_of ls

unfoldable pub finish : (buffer : Text) → List Text × Text
unfolding lines_from payloads_of
finish buffer = elim (trim buffer) [
  | [] ↦ ([], [])
  | _ ∷ _ ↦ (payloads_of (lines_from [] buffer), [])
]

unfoldable pub is_empty_decoder : (buffer : Text) → Bool
is_empty_decoder buffer = elim buffer [ [] ↦ true | _ ∷ _ ↦ false ]

unfoldable pub is_done : Text → Bool
is_done payload = text_eq payload (codes "[DONE]")

-- A client that pushes the chunks of a response one after another.
unfoldable pub push_all : (buffer : Text) → List Text → List Text × Text
unfolding push
push_all buffer [] = ([], buffer)
push_all buffer (chunk ∷ chunks) =
    let first = push buffer chunk in
    let rest = push_all first.1 chunks in (first.0 ++ rest.0, rest.1)
