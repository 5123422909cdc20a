-- ===== src/Sorting/Reordered.antt =====
-- `sort_by` gives one list for all orders of its input, when elements that compare equal are equal.
use mathlib.Core.List.{Permᴰ, Memᴰ}
use mathlib.Core.List.Memᴰ.{head, tail}
use mathlib.Core.List.Permᴰ
use mathlib.Core.List.Permᴰ.{nil, cons, swap, trans}
use aegis_ai_gateway.Prelude.{
  ◌≡◌, refl, sym, ap, ◌∙◌, subst, arith, Bool, true, false, List, [], ◌∷◌, Bool-cases, inl, inr,
  filter,
}
use aegis_ai_gateway.Sorting.{insert_by, sort_by}

module _ {ℓ} {A : Type ℓ} where
  pub Permᴰ-mem : {xs ys : List A} (z : A) → Permᴰ xs ys → Memᴰ z xs → Memᴰ z ys
  Permᴰ-mem z nil m = m
  Permᴰ-mem z (cons e p) (head q) = head (q ∙ e)
  Permᴰ-mem z (cons e p) (tail m) = tail (Permᴰ-mem z p m)
  Permᴰ-mem z (swap e f) (head q) = tail (head (q ∙ e))
  Permᴰ-mem z (swap e f) (tail (head q)) = head (q ∙ f)
  Permᴰ-mem z (swap e f) (tail (tail m)) = tail (tail m)
  Permᴰ-mem z (trans p q) m = Permᴰ-mem z q (Permᴰ-mem z p m)

  pub Permᴰ-filter :
      (p : A → Bool) {xs ys : List A} → Permᴰ xs ys → Permᴰ (filter p xs) (filter p ys)
  Permᴰ-filter p nil = nil
  Permᴰ-filter p (cons {a} {l₁ = xs} {l₂ = ys} e q) =
      subst (λ c. Permᴰ (filter p (a ∷ xs)) (filter p (c ∷ ys))) e
        (elim (Bool-cases (p a)) [
          | inl t ↦ rw t (cons refl (Permᴰ-filter p q))
          | inr t ↦ rw t (Permᴰ-filter p q)
        ])
  Permᴰ-filter p (swap {a} {b} {b' = d} {l} e f) =
      subst (λ c. Permᴰ (filter p (a ∷ b ∷ l)) (filter p (c ∷ d ∷ l))) f
        (subst (λ c. Permᴰ (filter p (a ∷ b ∷ l)) (filter p (b ∷ c ∷ l))) e
          (elim (Bool-cases (p a)) [
            | inl t ↦ elim (Bool-cases (p b)) [
              | inl u ↦ rw (t, u) (swap refl refl)
              | inr u ↦ rw (t, u) (Permᴰ.refl _)
            ]
            | inr t ↦ elim (Bool-cases (p b)) [
              | inl u ↦ rw (t, u) (Permᴰ.refl _)
              | inr u ↦ rw (t, u) (Permᴰ.refl _)
            ]
          ]))
  Permᴰ-filter p (trans q r) = trans (Permᴰ-filter p q) (Permᴰ-filter p r)

module _ {ℓ} {A : Type ℓ} (le : A → A → Bool) (total : (a b : A) → le a b ≡ false → le b a ≡ true)
    (transitive : (a b c : A) → le a b ≡ true → le b c ≡ true → le a c ≡ true) where
  -- Elements of the list that compare equal are equal.
  abbrev pub HasNoTies : List A → Type ℓ
  HasNoTies l = (a b : A) → Memᴰ a l → Memᴰ b l → le a b ≡ true → le b a ≡ true → a ≡ b

  insert_by-commutes :
      (x y : A) (l : List A)
      → le x y ≡ true
      → le y x ≡ false
      → insert_by le x (insert_by le y l) ≡ insert_by le y (insert_by le x l)
  unfolding insert_by
  insert_by-commutes x y [] e f = rw (e, f) refl
  insert_by-commutes x y (z ∷ zs) e f =
      let ih = insert_by-commutes x y zs e f in
      ground (arith, transitive x y z, transitive y z x, total x z)

  insert_two :
      (x y : A) (l : List A)
      → (le x y ≡ true → le y x ≡ true → x ≡ y)
      → insert_by le x (insert_by le y l) ≡ insert_by le y (insert_by le x l)
  insert_two x y l h = elim (Bool-cases (le x y)) [
    | inl e ↦ elim (Bool-cases (le y x)) [
      | inl f ↦ rw (h e f) refl
      | inr f ↦ insert_by-commutes x y l e f
    ]
    | inr e ↦ sym (insert_by-commutes y x l (total x y e) e)
  ]

  pub sort_by-reordered :
      {xs ys : List A} → HasNoTies xs → Permᴰ xs ys → sort_by le xs ≡ sort_by le ys
  unfolding sort_by
  sort_by-reordered h nil = refl
  sort_by-reordered h (cons e p) =
      rw e (ap (insert_by le _) (sort_by-reordered (λ a b m n. h a b (tail m) (tail n)) p))
  sort_by-reordered h (swap {a} {b} {b' = d} {l} e f) =
      subst
        (λ c.
          insert_by le a (insert_by le b (sort_by le l))
          ≡ insert_by le c (insert_by le d (sort_by le l)))
        f
        (subst
          (λ c.
            insert_by le a (insert_by le b (sort_by le l))
            ≡ insert_by le b (insert_by le c (sort_by le l)))
          e (insert_two a b (sort_by le l) (h a b (head refl) (tail (head refl)))))
  sort_by-reordered h (trans p q) =
      sort_by-reordered h p
      ∙ sort_by-reordered
          (λ a b m n. h a b (Permᴰ-mem a (Permᴰ.symm p) m) (Permᴰ-mem b (Permᴰ.symm p) n)) q
