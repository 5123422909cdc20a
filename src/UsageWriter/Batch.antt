-- ===== src/UsageWriter/Batch.antt =====
-- apps/gateway/src/workers/usage_writer.rs: a batch loses no record.
use mathlib.Core.List.{Memᴰ}
use mathlib.Core.List.Memᴰ.{head, tail}
use aegis_ai_gateway.Prelude.{
  ℕ, ◌+◌, ◌≡◌, inl, inr, refl, sym, ap, ◌∙◌, subst, arith, true, false, Option, none, some, List,
  [], ◌∷◌, ◌++◌, length, Bool-cases,
}
use aegis_ai_gateway.Store.{StreamEntry}
use aegis_ai_gateway.Text.{Text}
use aegis_ai_gateway.Usage.{UsageEvent}
use aegis_ai_gateway.UsageWriter.{
  BatchResult, Insertion, new_row, known_row, failed_row, Records, Outcome, was_inserted, was_known,
  was_malformed, halted, is_halted, count_outcome, after_insert, persist, consume,
}

-- The cursor after some entries are done: the id of the last, or what it was.
abbrev pub cursor_after : List StreamEntry → Text → Text
cursor_after [] id = id
cursor_after (e ∷ es) id = cursor_after es e.id

abbrev pub handled : BatchResult → ℕ
handled b = b.inserted + b.duplicates + b.malformed

handled-count_outcome :
    (o : Outcome) (b : BatchResult)
    → is_halted o ≡ false
    → handled (count_outcome o b) ≡ handled b + 1
unfolding count_outcome
handled-count_outcome was_inserted b h = omega arith
handled-count_outcome was_known b h = omega arith
handled-count_outcome was_malformed b h = omega arith
handled-count_outcome halted b h = cc

module _ {D : Type 0} (r : Records D) (decode : Text → Option UsageEvent)
    (Persisted : UsageEvent → D → Type 0) where
  -- What the worker relies on: a row that the database says is new or known is there, and a later
  -- write removes none.
  abbrev pub KeepsRows : Type 0
  KeepsRows =
      ((e : UsageEvent) (d : D)
        → (r.insert_usage_record e d).0 ≡ new_row
        → Persisted e (r.insert_usage_record e d).1)
      × ((e : UsageEvent) (d : D)
          → (r.insert_usage_record e d).0 ≡ known_row
          → Persisted e (r.insert_usage_record e d).1)
      × ((e f : UsageEvent) (d : D) → Persisted e d → Persisted e (r.insert_usage_record f d).1)
      × ((e f : UsageEvent) (d : D) → Persisted e d → Persisted e (r.upsert_daily_aggregate f d))

  after_insert-keeps :
      (e f : UsageEvent) (i : Insertion × D)
      → KeepsRows
      → Persisted e i.1
      → Persisted e (after_insert r decode f i).1
  unfolding after_insert
  after_insert-keeps e f (new_row, d) k p = k.3 e f d p
  after_insert-keeps e f (known_row, d) k p = p
  after_insert-keeps e f (failed_row, d) k p = p

  persist-keeps :
      (e : UsageEvent) (o : Option UsageEvent) (d : D)
      → KeepsRows
      → Persisted e d
      → Persisted e (persist r decode o d).1
  unfolding persist
  persist-keeps e none d k p = p
  persist-keeps e (some f) d k p = after_insert-keeps e f _ k (k.2 e f d p)

  consume-keeps :
      (e : UsageEvent) (l : List StreamEntry) (id : Text) (b : BatchResult) (d : D)
      → KeepsRows
      → Persisted e d
      → Persisted e (consume r decode l id b d).2
  unfolding consume
  consume-keeps e [] id b d k p = p
  consume-keeps e (x ∷ l) id b d k p =
      let done = persist r decode (decode x.payload) d in
      let q = persist-keeps e (decode x.payload) d k p in
      elim (Bool-cases (is_halted done.0)) [
        | inl t ↦ rw t q
        | inr t ↦ rw t (consume-keeps e l x.id (count_outcome done.0 b) done.1 k q)
      ]

  -- An entry that did not halt the batch has its event in the database, if it has one.
  after_insert-persists :
      (e : UsageEvent) (d : D)
      → KeepsRows
      → is_halted (after_insert r decode e (r.insert_usage_record e d)).0 ≡ false
      → Persisted e (after_insert r decode e (r.insert_usage_record e d)).1
  unfolding after_insert
  after_insert-persists e d k h = go (r.insert_usage_record e d) refl h
    where
      go :
          (i : Insertion × D)
          → r.insert_usage_record e d ≡ i
          → is_halted (after_insert r decode e i).0 ≡ false
          → Persisted e (after_insert r decode e i).1
      go (new_row, c) q h = k.3 e e c (subst (λ i. Persisted e i.1) q (k.0 e d (ap (λ i. i.0) q)))
      go (known_row, c) q h = subst (λ i. Persisted e i.1) q (k.1 e d (ap (λ i. i.0) q))
      go (failed_row, c) q h = cc

  persist-persists :
      (e : UsageEvent) (o : Option UsageEvent) (d : D)
      → KeepsRows
      → o ≡ some e
      → is_halted (persist r decode o d).0 ≡ false
      → Persisted e (persist r decode o d).1
  unfolding persist
  persist-persists e o d k q h =
      subst (λ p. Persisted e (persist r decode p d).1) (sym q)
        (after_insert-persists e d k (subst (λ p. is_halted (persist r decode p d).0 ≡ false) q h))

  -- What is left begins with an entry whose record the database failed to take.
  abbrev pub IsStop : List StreamEntry → Type 0
  IsStop [] = Unit
  IsStop (x ∷ l) =
      (e : UsageEvent) × (d : D) × (decode x.payload ≡ some e)
      × ((r.insert_usage_record e d).0 ≡ failed_row)

  halted-fails :
      (o : Option UsageEvent) (d : D)
      → is_halted (persist r decode o d).0 ≡ true
      → (e : UsageEvent) × (o ≡ some e) × ((r.insert_usage_record e d).0 ≡ failed_row)
  unfolding persist after_insert
  halted-fails none d h = cc
  halted-fails (some e) d h = (e, refl, go (r.insert_usage_record e d) h)
    where
      go : (i : Insertion × D) → is_halted (after_insert r decode e i).0 ≡ true → i.0 ≡ failed_row
      go (new_row, c) q = cc
      go (known_row, c) q = cc
      go (failed_row, c) q = refl

  -- While the database has the rows that it says are new or known, and keeps them, the loop handles
  -- the entries from the front up to some point, and the cursor that it returns is that point: each
  -- entry before it is counted, and is malformed or has its record in the database; if any entry is
  -- left, the database failed to take the first.
  pub consume_loses_nothing :
      (l : List StreamEntry) (id : Text) (b : BatchResult) (d : D)
      → KeepsRows
      → (done : List StreamEntry) × (rest : List StreamEntry) × (l ≡ done ++ rest)
        × ((consume r decode l id b d).1 ≡ cursor_after done id)
        × (handled (consume r decode l id b d).0 ≡ handled b + length done)
        × ((x : StreamEntry) (e : UsageEvent)
            → Memᴰ x done
            → decode x.payload ≡ some e
            → Persisted e (consume r decode l id b d).2)
        × IsStop rest
  unfolding consume
  consume_loses_nothing [] id b d k = ([], [], refl, refl, omega arith, λ x e m q. elim m [ ], tt)
  consume_loses_nothing (y ∷ l) id b d k =
      let one = persist r decode (decode y.payload) d in
      elim (Bool-cases (is_halted one.0)) [
        | inl t ↦
            let f = halted-fails (decode y.payload) d t in
            (
              [],
              y ∷ l,
              refl,
              rw t refl,
              rw t (omega arith),
              λ x e m q. elim m [ ],
              (f.0, d, f.1, f.2),
            )
        | inr t ↦
            let ih = consume_loses_nothing l y.id (count_outcome one.0 b) one.1 k in
            let counted = handled-count_outcome one.0 b t in
            (
              y ∷ ih.0,
              ih.1,
              ap (◌∷◌ y) ih.2,
              rw t ih.3,
              rw t (ih.4 ∙ omega (arith, counted)),
              λ x e m q. rw t (elim m [
                | head p ↦ consume-keeps e l y.id (count_outcome one.0 b) one.1 k (
                    persist-persists e (decode y.payload) d k
                      (ap (λ z. decode z.payload) (sym p) ∙ q) t)
                | tail n ↦ ih.5 x e n q
              ]),
              ih.6,
            )
      ]
