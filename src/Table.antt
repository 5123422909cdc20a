-- ===== src/Table.antt =====
-- `HashMap<String, V>`: an association list with the key compared as a text.
use aegis_ai_gateway.Prelude.{
  ◌≡◌, refl, arith, Bool, List, [], ◌∷◌, Option, none, some, if◌then◌else◌,
}
use aegis_ai_gateway.Text.{Text, text_eq}
use aegis_ai_gateway.Text.Equality.{text_eq_iff}

abbrev pub Table {ℓ} : Type ℓ → Type ℓ
Table V = List (Text × V)

module _ {ℓ} {V : Type ℓ} where
  unfoldable pub lookup : Text → Table V → Option V
  lookup k [] = none
  lookup k ((j, v) ∷ m) = if text_eq j k then some v else lookup k m

  unfoldable pub insert : Text → V → Table V → Table V
  insert k v [] = (k, v) ∷ []
  insert k v ((j, w) ∷ m) = if text_eq j k then (k, v) ∷ m else (j, w) ∷ insert k v m

  unfoldable pub remove : Text → Table V → Table V
  remove k [] = []
  remove k ((j, v) ∷ m) = let rest = remove k m in if text_eq j k then rest else (j, v) ∷ rest

  -- Drops the keys that a test picks.
  unfoldable pub remove_if : (Text → Bool) → Table V → Table V
  remove_if p [] = []
  remove_if p ((j, v) ∷ m) = let rest = remove_if p m in if p j then rest else (j, v) ∷ rest

  unfoldable pub keys : Table V → List Text
  keys [] = []
  keys ((j, v) ∷ m) = j ∷ keys m

  pub lookup-insert :
      (k j : Text) (v : V) (m : Table V)
      → lookup j (insert k v m) ≡ (if text_eq k j then some v else lookup j m)
  unfolding lookup insert
  lookup-insert k j v [] = refl
  lookup-insert k j v ((i, w) ∷ m) =
      ground (arith, text_eq_iff k j, text_eq_iff i k, text_eq_iff i j, lookup-insert k j v m)

  pub lookup-remove :
      (k j : Text) (m : Table V)
      → lookup j (remove k m) ≡ (if text_eq k j then none else lookup j m)
  unfolding lookup remove
  lookup-remove k j [] = ground arith
  lookup-remove k j ((i, w) ∷ m) =
      ground (arith, text_eq_iff k j, text_eq_iff i k, text_eq_iff i j, lookup-remove k j m)

  pub lookup-remove_if :
      (p : Text → Bool) (j : Text) (m : Table V)
      → lookup j (remove_if p m) ≡ (if p j then none else lookup j m)
  unfolding lookup remove_if
  lookup-remove_if p j [] = ground arith
  lookup-remove_if p j ((i, w) ∷ m) = ground (arith, text_eq_iff i j, lookup-remove_if p j m)
