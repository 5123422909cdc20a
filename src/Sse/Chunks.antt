-- ===== src/Sse/Chunks.antt =====
-- apps/gateway/src/providers/sse.rs: chunk boundaries do not show.
use mathlib.Core.List.{append_assoc, append-nil}
use aegis_ai_gateway.Prelude.{
  ◌≡◌, refl, sym, ap, ◌∙◌, false, List, [], ◌∷◌, ◌++◌, ◌==◌, All, All-append, Bool-cases, inl, inr,
}
use aegis_ai_gateway.Sse.{
  newline, take_lines, push, push_all, payload_of, trim_end_matches, carriage_return,
}
use aegis_ai_gateway.Text.{Text}

-- A buffer holds no complete line.
abbrev pub IsPartial : Text → Type 0
IsPartial = All λ c. (c == newline) ≡ false

abbrev pub concat : List Text → Text
concat [] = []
concat (x ∷ xs) = x ++ concat xs

pub take_lines-IsPartial : (line rest : Text) → IsPartial line → IsPartial (take_lines line rest).1
unfolding take_lines
take_lines-IsPartial line [] h = h
take_lines-IsPartial line (c ∷ rest) h = elim (Bool-cases (c == newline)) [
  | inl e ↦ rw e (take_lines-IsPartial [] rest tt)
  | inr e ↦ rw e (
      take_lines-IsPartial (line ++ c ∷ []) rest
        (All-append (λ d. (d == newline) ≡ false) line (c ∷ []) h (e, tt)))
]

-- What is in the buffer counts as the line so far.
take_lines_partial :
    (line buffer rest : Text)
    → IsPartial buffer
    → take_lines line (buffer ++ rest) ≡ take_lines (line ++ buffer) rest
unfolding take_lines
take_lines_partial line [] rest h = ap (λ l. take_lines l rest) (sym (append-nil line))
take_lines_partial line (c ∷ buffer) rest h =
    rw h.0 (take_lines_partial (line ++ c ∷ []) buffer rest h.1)
    ∙ ap (λ l. take_lines l rest) (append_assoc line (c ∷ []) buffer)

take_lines-append :
    (line a b : Text)
    → take_lines line (a ++ b) ≡ (
      (take_lines line a).0 ++ (take_lines (take_lines line a).1 b).0,
      (take_lines (take_lines line a).1 b).1,
    )
unfolding take_lines
take_lines-append line [] b = refl
take_lines-append line (c ∷ a) b = elim (Bool-cases (c == newline)) [
  | inl e ↦
      let first = payload_of (trim_end_matches carriage_return line) in
      let here = take_lines [] a in
      let later = take_lines here.1 b in
      rw (e, take_lines-append [] a b)
        (ap (λ l. (l, later.1)) (sym (append_assoc first here.0 later.0)))
  | inr e ↦ rw e (take_lines-append (line ++ c ∷ []) a b)
]

push-take_lines :
    (buffer chunk : Text) → IsPartial buffer → push buffer chunk ≡ take_lines buffer chunk
unfolding push
push-take_lines buffer chunk h = take_lines_partial [] buffer chunk h

-- However a response is cut into chunks, a decoder that starts with a partial line emits the
-- payloads of the whole text, in order, and is left with the partial line at its end.
pub push_all-take_lines :
    (buffer : Text) (chunks : List Text)
    → IsPartial buffer
    → push_all buffer chunks ≡ take_lines buffer (concat chunks)
unfolding push_all take_lines
push_all-take_lines buffer [] h = refl
push_all-take_lines buffer (chunk ∷ chunks) h =
    let first = take_lines buffer chunk in
    let rest = push_all-take_lines first.1 chunks (take_lines-IsPartial buffer chunk h) in
    ap (λ (r : List Text × Text). (r.0 ++ (push_all r.1 chunks).0, (push_all r.1 chunks).1))
      (push-take_lines buffer chunk h)
    ∙ ap (λ (r : List Text × Text). (first.0 ++ r.0, r.1)) rest
    ∙ sym (take_lines-append buffer chunk (concat chunks))
