-- ===== src/Prelude/Predicates.antt =====
-- A predicate on the elements of a list, by recursion.
use mathlib.Core.Path.{◌≡◌, refl, sym, subst}
use mathlib.Core.Bool.{Bool, true}
use mathlib.Core.Logic.{inl, inr}
use mathlib.Core.List.{List, [], ◌∷◌, ◌++◌, Memᴰ}
use mathlib.Core.List.Memᴰ.{head, tail}
use aegis_ai_gateway.Prelude.Tests.{Bool-cases, if◌then◌else◌}
use aegis_ai_gateway.Prelude.Lists.{filter}

module _ {ℓ κ} {A : Type ℓ} (P : A → Type κ) where
  abbrev pub All : List A → Type κ
  All [] = Unit
  All (x ∷ xs) = P x × All xs

  pub All-append : (xs ys : List A) → All xs → All ys → All (xs ++ ys)
  All-append [] ys hx hy = hy
  All-append (x ∷ xs) ys hx hy = (hx.0, All-append xs ys hx.1 hy)

  pub All-mem : (z : A) (xs : List A) → All xs → Memᴰ z xs → P z
  All-mem z [] h m = elim m [ ]
  All-mem z (x ∷ xs) h (head e) = subst P (sym e) h.0
  All-mem z (x ∷ xs) h (tail m) = All-mem z xs h.1 m

  pub All-of_mem : (xs : List A) → ((z : A) → Memᴰ z xs → P z) → All xs
  All-of_mem [] f = tt
  All-of_mem (x ∷ xs) f = (f x (head refl), All-of_mem xs (λ z m. f z (tail m)))

module _ {ℓ} {A : Type ℓ} (p : A → Bool) where
  pub filter-mem : (z : A) (xs : List A) → Memᴰ z xs → p z ≡ true → Memᴰ z (filter p xs)
  filter-mem z [] m h = elim m [ ]
  filter-mem z (x ∷ xs) (head e) h = rw (subst (λ y. p y ≡ true) e h) (head e)
  filter-mem z (x ∷ xs) (tail m) h = elim (Bool-cases (p x)) [
    | inl e ↦ rw e (tail (filter-mem z xs m h))
    | inr e ↦ rw e (filter-mem z xs m h)
  ]

  pub mem-filter : (z : A) (xs : List A) → Memᴰ z (filter p xs) → Memᴰ z xs × (p z ≡ true)
  mem-filter z [] m = elim m [ ]
  mem-filter z (x ∷ xs) m = elim (Bool-cases (p x)) [
    | inl e ↦ elim (subst (λ b. Memᴰ z (if b then x ∷ filter p xs else filter p xs)) e m) [
      | head q ↦ (head q, subst (λ y. p y ≡ true) (sym q) e)
      | tail k ↦ let r = mem-filter z xs k in (tail r.0, r.1)
    ]
    | inr e ↦
        let r =
          mem-filter z xs (subst (λ b. Memᴰ z (if b then x ∷ filter p xs else filter p xs)) e m) in
        (tail r.0, r.1)
  ]
