-- ===== src/Sorting.antt =====
-- `sort_by` and `min_by` with a comparison as a Boolean test.
pub mod Ascending
pub mod Reordered
use aegis_ai_gateway.Prelude.{Bool, not, Option, none, some, List, [], ◌∷◌, if◌then◌else◌}

-- `sort_by` is stable: an element goes before those that it equals and that came after it.
unfoldable pub insert_by {ℓ} : {A : Type ℓ} → (A → A → Bool) → A → List A → List A
insert_by le x [] = x ∷ []
insert_by le x (y ∷ ys) = let rest = insert_by le x ys in if le x y then x ∷ y ∷ ys else y ∷ rest

unfoldable pub sort_by {ℓ} : {A : Type ℓ} → (A → A → Bool) → List A → List A
unfolding insert_by
sort_by le [] = []
sort_by le (x ∷ xs) = insert_by le x (sort_by le xs)

-- `min_by`: the first of the least elements.
unfoldable pub min_by {ℓ} : {A : Type ℓ} → (A → A → Bool) → List A → Option A
min_by le [] = none
min_by le (x ∷ xs) = elim (min_by le xs) [
  | none ↦ some x
  | some y ↦ if le x y then some x else some y
]

-- `max_by`: the last of the greatest elements.
unfoldable pub max_by {ℓ} : {A : Type ℓ} → (A → A → Bool) → List A → Option A
unfolding min_by
max_by le xs = min_by (λ a b. not (le a b)) xs
