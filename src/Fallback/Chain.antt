-- ===== src/Fallback/Chain.antt =====
-- apps/gateway/src/engine/fallback.rs: `FallbackChain::build` and the retry policy.
use mathlib.Core.List.{Memᴰ}
use mathlib.Core.List.Memᴰ.{head, tail}
use aegis_ai_gateway.Prelude.{
  ◌≡◌, arith, refl, true, false, ◌||◌, Bool-cases, inl, inr, List, [], ◌∷◌, ◌++◌,
}
use aegis_ai_gateway.Text.{Text, text_eq}
use aegis_ai_gateway.Text.Equality.{text_eq_refl, text_eq_iff}
use aegis_ai_gateway.Fallback.{FallbackAttempt, has_model, push_new, push_alternates, build}

-- No model stands twice.
unfoldable pub IsDistinct : List FallbackAttempt → Type 0
unfolding has_model
IsDistinct [] = Unit
IsDistinct (a ∷ as') = (has_model a.model_id as' ≡ false) × IsDistinct as'

has_model-append :
    (m : Text) (xs ys : List FallbackAttempt)
    → has_model m (xs ++ ys) ≡ (has_model m xs || has_model m ys)
unfolding has_model
has_model-append m [] ys = refl
has_model-append m (x ∷ xs) ys = ground (arith, has_model-append m xs ys)

append-IsDistinct :
    (xs : List FallbackAttempt) (a : FallbackAttempt)
    → has_model a.model_id xs ≡ false
    → IsDistinct xs
    → IsDistinct (xs ++ a ∷ [])
unfolding has_model IsDistinct
append-IsDistinct [] a new d = (refl, tt)
append-IsDistinct (x ∷ xs) a new d =
    let differs : text_eq a.model_id x.model_id ≡ false =
      ground (arith, text_eq_iff a.model_id x.model_id, text_eq_iff x.model_id a.model_id) in
    let rest : has_model a.model_id xs ≡ false = ground arith in
    (
      rw (has_model-append x.model_id xs (a ∷ [])) (rw (d.0, differs) refl),
      append-IsDistinct xs a rest d.1,
    )

push_new-IsDistinct :
    (m : Text × Text) (xs : List FallbackAttempt) → IsDistinct xs → IsDistinct (push_new m xs)
unfolding push_new
push_new-IsDistinct (m, provider) xs d = elim (Bool-cases (has_model m xs)) [
  | inl e ↦ rw e d
  | inr e ↦ rw e (append-IsDistinct xs _ e d)
]

-- A model that is in the chain stays in it, and one that is pushed is in it.
push_new_keeps :
    (m : Text × Text) (j : Text) (xs : List FallbackAttempt)
    → has_model j xs ≡ true
    → has_model j (push_new m xs) ≡ true
unfolding push_new
push_new_keeps (m, provider) j xs h = elim (Bool-cases (has_model m xs)) [
  | inl e ↦ rw e h
  | inr e ↦ rw e (rw (has_model-append j xs _) (rw h refl))
]

push_new_has : (m : Text × Text) (xs : List FallbackAttempt) → has_model m.0 (push_new m xs) ≡ true
unfolding push_new
push_new_has (m, provider) xs = elim (Bool-cases (has_model m xs)) [
  | inl e ↦ rw e e
  | inr e ↦
      rw e (rw (has_model-append m xs _) (rw e (unfold has_model in rw (text_eq_refl m) refl)))
]

push_alternates-IsDistinct :
    (ms : List (Text × Text)) (xs : List FallbackAttempt)
    → IsDistinct xs
    → IsDistinct (push_alternates ms xs)
unfolding push_alternates
push_alternates-IsDistinct [] xs d = d
push_alternates-IsDistinct (m ∷ ms) xs d =
    push_alternates-IsDistinct ms (push_new m xs) (push_new-IsDistinct m xs d)

push_alternates_keeps :
    (ms : List (Text × Text)) (j : Text) (xs : List FallbackAttempt)
    → has_model j xs ≡ true
    → has_model j (push_alternates ms xs) ≡ true
unfolding push_alternates
push_alternates_keeps [] j xs h = h
push_alternates_keeps (m ∷ ms) j xs h =
    push_alternates_keeps ms j (push_new m xs) (push_new_keeps m j xs h)

push_alternates_has :
    (m : Text × Text) (ms : List (Text × Text)) (xs : List FallbackAttempt)
    → Memᴰ m ms
    → has_model m.0 (push_alternates ms xs) ≡ true
unfolding push_alternates
push_alternates_has m [] xs i = elim i [ ]
push_alternates_has m (n ∷ ms) xs (head same) =
    push_alternates_keeps ms m.0 (push_new n xs) (rw same (push_new_has n xs))
push_alternates_has m (n ∷ ms) xs (tail i) = push_alternates_has m ms (push_new n xs) i

-- A chain never tries a model twice.
pub build-IsDistinct :
    (selected requested : Text × Text) (alternates : List (Text × Text))
    → IsDistinct (build selected requested alternates)
unfolding build
build-IsDistinct selected requested alternates =
    let start : List FallbackAttempt =
      record { model_id = selected.0; provider = selected.1; is_fallback = false } ∷ [] in
    let alone : IsDistinct start = unfold IsDistinct in (refl, tt) in
    push_new-IsDistinct requested (push_alternates alternates start)
      (push_alternates-IsDistinct alternates start alone)

-- Every alternate, the requested model and the selected one are tried.
pub build_tries_all :
    (selected requested m : Text × Text) (alternates : List (Text × Text))
    → Memᴰ m (selected ∷ requested ∷ alternates)
    → has_model m.0 (build selected requested alternates) ≡ true
unfolding build
build_tries_all selected requested m alternates (head same) = rw same (
    push_new_keeps requested selected.0 _ (
      push_alternates_keeps alternates selected.0 _
        (unfold has_model in rw (text_eq_refl selected.0) refl)))
build_tries_all selected requested m alternates (tail (head same)) =
    rw same (push_new_has requested _)
build_tries_all selected requested m alternates (tail (tail i)) =
    push_new_keeps requested m.0 _ (push_alternates_has m alternates _ i)
