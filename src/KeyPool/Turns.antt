-- ===== src/KeyPool/Turns.antt =====
-- apps/gateway/src/providers/pool.rs: the keys of a provider take turns, whatever else is asked for.
use aegis_ai_gateway.Prelude.{
  ℕ, ◌+◌, ◌%◌, ◌^◌, ◌<◌, ◌≡◌, refl, sym, subst, ap, ◌∙◌, arith, false, List, [], ◌∷◌, length,
  Bool-cases, inl, inr, if◌then◌else◌,
}
use aegis_ai_gateway.Error.{ok}
use aegis_ai_gateway.Text.{Text, text_eq}
use aegis_ai_gateway.Text.Equality.{text_eq_iff, text_eq_refl}
use aegis_ai_gateway.Table.{Table, insert, lookup-insert}
use aegis_ai_gateway.KeyPool.{
  Keys, shared_keys, cursor_of, nth, take_turn, from_keys, next_credential, new_credential,
}

module _ (config : Keys) where
  -- The cursors after a run of calls.
  unfoldable pub asked : List Text → Table ℕ → Table ℕ
  asked [] t = t
  asked (q ∷ l) t = asked l (next_credential config q t).1

-- How often a run of calls asks for a provider.
unfoldable pub times : Text → List Text → ℕ
times p [] = 0
times p (q ∷ l) = if text_eq q p then 1 + times p l else times p l

module _ (config : Keys) (p first : Text) (rest : List Text)
    (has : shared_keys config p ≡ first ∷ rest) where
  cursor_elsewhere :
      (q : Text) (ks : List Text) (t : Table ℕ)
      → text_eq q p ≡ false
      → cursor_of p (from_keys q ks t).1 ≡ cursor_of p t
  unfolding from_keys take_turn cursor_of
  cursor_elsewhere q [] t other = refl
  cursor_elsewhere q (k ∷ ks) t other =
      ground (arith, lookup-insert q p ((cursor_of q t + 1) % 2 ^ 64) t)

  cursor_here : (n : ℕ) (t : Table ℕ) → cursor_of p (insert p n t) ≡ n
  unfolding cursor_of
  cursor_here n t = ground (arith, lookup-insert p p n t, text_eq_refl p)

  cursor_next :
      (t : Table ℕ)
      → cursor_of p t + 1 < 2 ^ 64
      → cursor_of p (next_credential config p t).1 ≡ cursor_of p t + 1
  unfolding next_credential from_keys take_turn
  cursor_next t fits = rw has (cursor_here ((cursor_of p t + 1) % 2 ^ 64) t ∙ omega arith)

  cursor_elsewhere_asked :
      (q : Text) (t : Table ℕ)
      → text_eq q p ≡ false
      → cursor_of p (next_credential config q t).1 ≡ cursor_of p t
  unfolding next_credential
  cursor_elsewhere_asked q t e = cursor_elsewhere q (shared_keys config q) t e

  cursor_after :
      (q : Text) (t : Table ℕ)
      → cursor_of p t + 1 < 2 ^ 64
      → cursor_of p (next_credential config q t).1
        ≡ (if text_eq q p then cursor_of p t + 1 else cursor_of p t)
  unfolding next_credential
  cursor_after q t fits = elim (Bool-cases (text_eq q p)) [
    | inl e ↦
        let same = (text_eq_iff q p).0 e in
        rw e (
          subst (λ r. cursor_of p (next_credential config r t).1 ≡ cursor_of p t + 1) (sym same)
            (cursor_next t fits))
    | inr e ↦ rw e (cursor_elsewhere_asked q t e)
  ]

  cursor_asked :
      (l : List Text) (t : Table ℕ)
      → cursor_of p t + times p l < 2 ^ 64
      → cursor_of p (asked config l t) ≡ cursor_of p t + times p l
  unfolding asked times
  cursor_asked [] t fits = omega arith
  cursor_asked (q ∷ l) t fits = elim (Bool-cases (text_eq q p)) [
    | inl e ↦
        let fits' : cursor_of p t + (1 + times p l) < 2 ^ 64 = rw e at fits in
        let next : cursor_of p (next_credential config q t).1 ≡ cursor_of p t + 1 =
          cursor_after q t (omega (arith, fits')) ∙ rw e refl in
        rw e (
          cursor_asked l (next_credential config q t).1 (omega (arith, next, fits'))
          ∙ omega (arith, next))
    | inr e ↦
        let fits' : cursor_of p t + times p l < 2 ^ 64 = rw e at fits in
        let next : cursor_of p (next_credential config q t).1 ≡ cursor_of p t =
          cursor_elsewhere_asked q t e in
        rw e (
          cursor_asked l (next_credential config q t).1 (omega (arith, next, fits'))
          ∙ omega (arith, next))
  ]

  -- For a provider that has keys, and while its cursor and the calls for it stay below 2^64: after
  -- any run of calls, for it and for others, the next key is the one at the place that its cursor
  -- has moved to, once for each call for it, going round its keys.
  pub next_credential_turns :
      (l : List Text) (t : Table ℕ)
      → cursor_of p t + times p l < 2 ^ 64
      → (next_credential config p (asked config l t)).0
        ≡ ok (
            new_credential
              (nth first (first ∷ rest) ((cursor_of p t + times p l) % length (first ∷ rest))))
  unfolding next_credential from_keys take_turn
  next_credential_turns l t fits = rw has (
      ap (λ (n : ℕ). ok (new_credential (nth first (first ∷ rest) (n % length (first ∷ rest)))))
        (cursor_asked l t fits))
