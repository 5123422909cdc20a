-- ===== src/Sorting/Ascending.antt =====
-- What `sort_by` and `min_by` return, for a test that is total and transitive.
use mathlib.Core.List.{Memᴰ}
use mathlib.Core.List.Memᴰ.{head, tail}
use aegis_ai_gateway.Prelude.{
  ◌≡◌, ◌≢◌, ◌∙◌, subst, All-mem, All-of_mem, Option-cases, Bool, true, false, none, some, List, [],
  ◌∷◌, if◌then◌else◌, Bool-cases, inl, inr, sym, refl, All,
}
use aegis_ai_gateway.Sorting.{insert_by, sort_by, min_by}

module _ {ℓ} {A : Type ℓ} (le : A → A → Bool) where
  -- Each element passes the test against all that follow.
  abbrev pub IsAscending : List A → Type 0
  IsAscending [] = Unit
  IsAscending (x ∷ xs) = All (λ y. le x y ≡ true) xs × IsAscending xs

  insert_by-All {κ} :
      (P : A → Type κ) (x : A) (l : List A) → P x → All P l → All P (insert_by le x l)
  unfolding insert_by
  insert_by-All P x [] p h = (p, tt)
  insert_by-All P x (y ∷ ys) p h = elim (Bool-cases (le x y)) [
    | inl e ↦ rw e (p, h)
    | inr e ↦ rw e (h.0, insert_by-All P x ys p h.1)
  ]

  pub sort_by-All {κ} : (P : A → Type κ) (l : List A) → All P l → All P (sort_by le l)
  unfolding sort_by
  sort_by-All P [] h = tt
  sort_by-All P (x ∷ xs) h = insert_by-All P x (sort_by le xs) h.0 (sort_by-All P xs h.1)

  insert_by-mem_head : (x : A) (l : List A) → Memᴰ x (insert_by le x l)
  unfolding insert_by
  insert_by-mem_head x [] = head refl
  insert_by-mem_head x (y ∷ ys) = elim (Bool-cases (le x y)) [
    | inl e ↦ rw e (head refl)
    | inr e ↦ rw e (tail (insert_by-mem_head x ys))
  ]

  insert_by-mem : (x z : A) (l : List A) → Memᴰ z l → Memᴰ z (insert_by le x l)
  unfolding insert_by
  insert_by-mem x z [] m = elim m [ ]
  insert_by-mem x z (y ∷ ys) m = elim (Bool-cases (le x y)) [
    | inl e ↦ rw e (tail m)
    | inr e ↦ rw e (elim m [ head p ↦ head p | tail k ↦ tail (insert_by-mem x z ys k) ])
  ]

  pub sort_by-mem : (z : A) (l : List A) → Memᴰ z l → Memᴰ z (sort_by le l)
  unfolding sort_by
  sort_by-mem z [] m = elim m [ ]
  sort_by-mem z (x ∷ xs) (head p) =
      subst (λ y. Memᴰ y (insert_by le x (sort_by le xs))) (sym p)
        (insert_by-mem_head x (sort_by le xs))
  sort_by-mem z (x ∷ xs) (tail m) = insert_by-mem x z (sort_by le xs) (sort_by-mem z xs m)

  pub mem-sort_by : (z : A) (l : List A) → Memᴰ z (sort_by le l) → Memᴰ z l
  mem-sort_by z l m =
      All-mem (λ y. Memᴰ y l) z (sort_by le l)
        (sort_by-All (λ y. Memᴰ y l) l (All-of_mem (λ y. Memᴰ y l) l (λ y k. k))) m

module _ {ℓ} {A : Type ℓ} (le : A → A → Bool) where
  some_if : (x y : A) (b : Bool) → (if b then some x else some y) ≢ none
  some_if x y true h = cc
  some_if x y false h = cc

  pub min_by-none : (l : List A) → min_by le l ≡ none → l ≡ []
  unfolding min_by
  min_by-none [] h = refl
  min_by-none (x ∷ xs) h = elim (Option-cases (min_by le xs)) [
    | inl e ↦ let bad : some x ≡ none = rw e at h in cc
    | inr (y, e) ↦
        let bad : (if le x y then some x else some y) ≡ none = rw e at h in
        absurd (some_if x y (le x y) bad)
  ]

  -- What `min_by` and `max_by` return is in the list, whatever the test.
  pub min_by-mem : (l : List A) (a : A) → min_by le l ≡ some a → Memᴰ a l
  unfolding min_by
  min_by-mem [] a h = cc
  min_by-mem (x ∷ xs) a h = elim (Option-cases (min_by le xs)) [
    | inl e ↦ let q : some x ≡ some a = rw e at h in head (let p : a ≡ x = cc in p)
    | inr (y, e) ↦
        let q : (if le x y then some x else some y) ≡ some a = rw e at h in
        elim (Bool-cases (le x y)) [
          | inl t ↦ let s : some x ≡ some a = rw t at q in head (let p : a ≡ x = cc in p)
          | inr t ↦ let s : some y ≡ some a = rw t at q in tail (min_by-mem xs a (e ∙ s))
        ]
  ]

module _ {ℓ} {A : Type ℓ} (le : A → A → Bool) (total : (a b : A) → le a b ≡ false → le b a ≡ true)
    (trans : (a b c : A) → le a b ≡ true → le b c ≡ true → le a c ≡ true) where
  below_trans :
      (x y : A) (l : List A)
      → le x y ≡ true
      → All (λ z. le y z ≡ true) l
      → All (λ z. le x z ≡ true) l
  below_trans x y [] e h = tt
  below_trans x y (z ∷ zs) e h = (trans x y z e h.0, below_trans x y zs e h.1)

  insert_by-IsAscending :
      (x : A) (l : List A) → IsAscending le l → IsAscending le (insert_by le x l)
  unfolding insert_by
  insert_by-IsAscending x [] h = (tt, tt)
  insert_by-IsAscending x (y ∷ ys) h = elim (Bool-cases (le x y)) [
    | inl e ↦ rw e ((e, below_trans x y ys e h.0), h)
    | inr e ↦ rw e (
      insert_by-All le (λ z. le y z ≡ true) x ys (total x y e) h.0,
      insert_by-IsAscending x ys h.1,
    )
  ]

  pub sort_by-IsAscending : (l : List A) → IsAscending le (sort_by le l)
  unfolding sort_by
  sort_by-IsAscending [] = tt
  sort_by-IsAscending (x ∷ xs) = insert_by-IsAscending x (sort_by le xs) (sort_by-IsAscending xs)

  -- `min_by` returns an element of the list that is at most every other one.
  abbrev pub IsLeast : A → List A → Type ℓ
  IsLeast a l = Memᴰ a l × All (λ y. le a y ≡ true) l

  le_refl : (a : A) → le a a ≡ true
  le_refl a = elim (Bool-cases (le a a)) [ inl e ↦ e | inr e ↦ total a a e ]

  IsLeast-cast : (b a : A) (l : List A) → some b ≡ some a → IsLeast b l → IsLeast a l
  IsLeast-cast b a l e h = let q : b ≡ a = cc in subst (λ c. IsLeast c l) q h

  pub min_by-IsLeast : (l : List A) (a : A) → min_by le l ≡ some a → IsLeast a l
  unfolding min_by
  min_by-IsLeast [] a h = cc
  min_by-IsLeast (x ∷ xs) a h = elim (Option-cases (min_by le xs)) [
    | inl e ↦
        let q : some x ≡ some a = rw e at h in
        let only = subst (λ l. All (λ y. le x y ≡ true) l) (sym (min_by-none le xs e)) tt in
        IsLeast-cast x a (x ∷ xs) q (head refl, (le_refl x, only))
    | inr (y, e) ↦
        let rest = min_by-IsLeast xs y e in
        let q : (if le x y then some x else some y) ≡ some a = rw e at h in
        elim (Bool-cases (le x y)) [
          | inl t ↦
              IsLeast-cast x a (x ∷ xs) (rw t at q)
                (head refl, (le_refl x, below_trans x y xs t rest.1))
          | inr t ↦ IsLeast-cast y a (x ∷ xs) (rw t at q) (tail rest.0, (total x y t, rest.1))
        ]
  ]
