-- ===== src/Store/Memory/Window.antt =====
-- The sliding window of `MemoryStore::rate_limit`.
use aegis_ai_gateway.Prelude.{
  ℕ, ◌+◌, ◌%◌, ◌^◌, ◌≤◌, ◌<◌, ◌≡◌, refl, arith, false, List, [], ◌∷◌, ◌++◌, none, ltb, length,
  filter, length-filter, length-append, ◌∙◌, ap, All, All-append, Bool-cases, inl, inr,
  if◌then◌else◌,
}
use mathlib.Core.List.{append-nil}
use aegis_ai_gateway.Error.{Result, ok, err}
use aegis_ai_gateway.Text.{Text}
use aegis_ai_gateway.Text.Equality.{text_eq_refl}
use aegis_ai_gateway.Table.{Table, lookup, insert, lookup-insert}
use aegis_ai_gateway.Store.{RateLimitOutcome}
use aegis_ai_gateway.Store.Memory.{MemoryStore, hits_at, retained, admit, rate_limit}

-- The times whose window still covers the instant `at`.
abbrev pub active : ℕ → ℕ → List ℕ → List ℕ
active window at = filter (λ t. ltb at (t + window))

abbrev AllUpTo : ℕ → List ℕ → Type 0
AllUpTo bound = All (λ t. t ≤ bound)

module _ (window : ℕ) where
  retained-eq-active :
      (now bound : ℕ) (hits : List ℕ)
      → AllUpTo bound hits
      → bound + window < 2 ^ 64
      → retained window now hits ≡ active window now hits
  unfolding retained
  retained-eq-active now bound [] a h = refl
  retained-eq-active now bound (t ∷ ts) (p, ps) h =
      ground (arith, retained-eq-active now bound ts ps h)

  active-active :
      (now at : ℕ) (hits : List ℕ)
      → now ≤ at
      → active window at (active window now hits) ≡ active window at hits
  active-active now at [] h = refl
  active-active now at (t ∷ ts) h = ground (arith, active-active now at ts h)

  active-append :
      (at : ℕ) (xs ys : List ℕ)
      → active window at (xs ++ ys) ≡ active window at xs ++ active window at ys
  active-append at [] ys = refl
  active-append at (x ∷ xs) ys = ground (arith, active-append at xs ys)

  AllUpTo-active :
      (now bound later : ℕ) (hits : List ℕ)
      → bound ≤ later
      → AllUpTo bound hits
      → AllUpTo later (active window now hits)
  AllUpTo-active now bound later [] h a = tt
  AllUpTo-active now bound later (t ∷ ts) h (p, ps) =
      ground (arith, AllUpTo-active now bound later ts h ps)

module _ (limit window : ℕ) where
  -- The kept times count for every later instant as the whole log does, and are within the limit.
  record Tracks (now : ℕ) (log hits : List ℕ) : Type 0 where
    bounded : AllUpTo now hits
    same : (at : ℕ) → now ≤ at → active window at log ≡ active window at hits
    few : length hits ≤ limit

  abbrev admitted_times : RateLimitOutcome → ℕ → List ℕ
  admitted_times o t = if o.allowed then t ∷ [] else []

  log-append :
      (now t at : ℕ) (log hits : List ℕ)
      → Tracks now log hits
      → now ≤ t
      → t ≤ at
      → (more : List ℕ)
      → active window at (log ++ more) ≡ active window at (active window t hits ++ more)
  log-append now t at log hits h k l more = rw (
    active-append window at log more,
    active-append window at (active window t hits) more,
    active-active window t at hits l,
    h.same at (omega arith),
  )

  -- What one call does to the kept times keeps them in step with the log of admitted times.
  admit-Tracks :
      (now t : ℕ) (log hits : List ℕ)
      → Tracks now log hits
      → now ≤ t
      → limit < 2 ^ 32
      → let r = admit limit window t (active window t hits) in
        Tracks t (log ++ admitted_times r.0 t) r.1
  unfolding admit
  admit-Tracks now t log hits h k small =
      let kept = active window t hits in
      let older = AllUpTo-active window t now t hits k h.bounded in
      let fewer : length kept ≤ limit =
        omega (arith, length-filter (λ u. ltb t (u + window)) hits, h.few) in
      elim (Bool-cases (ltb (length kept % 2 ^ 32) limit)) [
        | inl e ↦ rw e (record {
          bounded = All-append (λ u. u ≤ t) kept (t ∷ []) older (omega arith);
          same = λ at l. log-append now t at log hits h k l (t ∷ []);
          few = ground (arith, length-append kept (t ∷ []));
        })
        | inr e ↦ rw e (record {
          bounded = older;
          same = λ at l.
              log-append now t at log hits h k l [] ∙ ap (active window at) (append-nil kept);
          few = fewer;
        })
      ]

  admitted_of : Result RateLimitOutcome → ℕ → List ℕ
  admitted_of (ok o) t = admitted_times o t
  admitted_of (err e) t = []

-- Clock readings that do not fall, from `now` up to `bound`.
abbrev pub Ascending : ℕ → ℕ → List ℕ → Type 0
Ascending now bound [] = now ≤ bound
Ascending now bound (t ∷ ts) = (now ≤ t) × Ascending t bound ts

le_of_Ascending : (now bound : ℕ) (ts : List ℕ) → Ascending now bound ts → now ≤ bound
le_of_Ascending now bound [] h = h
le_of_Ascending now bound (t ∷ ts) (h, hs) = omega (arith, le_of_Ascending t bound ts hs)

module _ (key : Text) (limit window : ℕ) where
  -- One call of `rate_limit` at each clock reading, with a log of the times of the admitted ones.
  unfoldable pub calls : List ℕ → MemoryStore → List ℕ → List ℕ
  unfolding admitted_of
  calls [] s log = log
  calls (t ∷ ts) s log =
      let (r, s') = rate_limit key limit window (record s { now = t }) in
      calls ts s' (log ++ admitted_of limit window r t)

  abbrev hits_of : MemoryStore → List ℕ
  hits_of s = hits_at (lookup key s.windows)

  abbrev left_by : MemoryStore → ℕ → RateLimitOutcome × List ℕ → MemoryStore
  left_by s t r = record s { now = t; windows = insert key r.1 s.windows }

  hits_at-insert : (ts : List ℕ) (m : Table (List ℕ)) → hits_at (lookup key (insert key ts m)) ≡ ts
  unfolding hits_at
  hits_at-insert ts m = rw (lookup-insert key key) (rw (text_eq_refl key))

  -- What `rate_limit` does, with the kept times written as the active ones.
  rate_limit_lem :
      (s : MemoryStore) (t now : ℕ)
      → s.poisoned ≡ false
      → AllUpTo now (hits_of s)
      → now + window < 2 ^ 64
      → let r = admit limit window t (active window t (hits_of s)) in
        rate_limit key limit window (record s { now = t }) ≡ (ok r.0, left_by s t r)
  unfolding rate_limit
  rate_limit_lem s t now up a fits = rw (up, retained-eq-active window t now (hits_of s) a fits)

  module _ (bound : ℕ) (small : limit < 2 ^ 32) (fits : bound + window < 2 ^ 64) where
    calls-le-limit :
        (ts : List ℕ) (s : MemoryStore) (now : ℕ) (log : List ℕ)
        → s.poisoned ≡ false
        → Ascending now bound ts
        → Tracks limit window now log (hits_of s)
        → length (active window bound (calls ts s log)) ≤ limit
    unfolding calls
    calls-le-limit [] s now log up asc h =
        rw (h.same bound asc)
          (omega (arith, length-filter (λ u. ltb bound (u + window)) (hits_of s), h.few))
    calls-le-limit (t ∷ ts) s now log up (k, asc) h =
        let r = admit limit window t (active window t (hits_of s)) in
        let later = le_of_Ascending t bound ts asc in
        rw (rate_limit_lem s t now up h.bounded (omega arith)) (
          calls-le-limit ts (left_by s t r) t (log ++ admitted_times limit window r.0 t) up asc (
            rw (hits_at-insert r.1 s.windows)
              (admit-Tracks limit window now t log (hits_of s) h k small)))

  -- However the calls on a key are spread in time, as long as the clock does not fall: of the requests
  -- that a fresh window admitted, at most `limit` lie within `window` milliseconds of any later instant.
  pub rate_limit_window :
      (ts : List ℕ) (s : MemoryStore) (bound : ℕ)
      → s.poisoned ≡ false
      → lookup key s.windows ≡ none
      → Ascending 0 bound ts
      → limit < 2 ^ 32
      → bound + window < 2 ^ 64
      → length (active window bound (calls ts s [])) ≤ limit
  unfolding hits_at
  rate_limit_window ts s bound up fresh asc small fits =
      calls-le-limit bound small fits ts s 0 [] up asc
        (rw fresh (record { bounded = tt; same = λ at l. refl; few = omega arith }))
