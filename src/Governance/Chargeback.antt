-- ===== src/Governance/Chargeback.antt =====
-- apps/gateway/src/engine/governance.rs: a chargeback report leaves no spend out.
use aegis_ai_gateway.Prelude.{
  ℕ, ◌+◌, ◌≤◌, ◌≡◌, refl, ap, ◌∙◌, arith, Bool, true, false, Option-cases, Bool-cases, inl, inr,
  List, [], ◌∷◌, map, All,
}
use aegis_ai_gateway.Int.{ℤ, pos, pos_part, neg_part, ◌+ℤ◌, int_laws}
use aegis_ai_gateway.Int.I64.{InI64, i64_max, wrapping_add, wrap_id}
use aegis_ai_gateway.Sorting.{insert_by, sort_by}
use aegis_ai_gateway.Sorting.Ascending.{IsAscending, sort_by-All, sort_by-IsAscending}
use aegis_ai_gateway.Text.{Text}
use aegis_ai_gateway.Usage.{Uuid}
use aegis_ai_gateway.Governance.{
  Spending, ChargebackLine, sum_from, without_center, lines_of, dearer_first, build,
}

-- The exact sum of amounts that are not negative.
unfoldable pub total_of : List ℤ → ℕ
total_of [] = 0
total_of (x ∷ xs) = pos_part x + total_of xs

abbrev IsNonnegative : ℤ → Type 0
IsNonnegative x = neg_part x ≡ 0

sum_from_exact :
    (n : ℕ) (xs : List ℤ)
    → All IsNonnegative xs
    → n + total_of xs ≤ i64_max
    → sum_from (pos n) xs ≡ pos (n + total_of xs)
unfolding sum_from total_of wrapping_add
sum_from_exact n [] h k = omega int_laws
sum_from_exact n (x ∷ xs) h k =
    let step : pos n +ℤ x ≡ pos (n + pos_part x) = omega (int_laws, h.0) in
    let fits : InI64 (pos (n + pos_part x)) = omega (arith, k) in
    rw (step, wrap_id (pos (n + pos_part x)) fits)
      (sum_from_exact (n + pos_part x) xs h.1 (omega (arith, k)) ∙ omega int_laws)

sum_exact :
    (xs : List ℤ)
    → All IsNonnegative xs
    → total_of xs ≤ i64_max
    → sum_from (pos 0) xs ≡ pos (total_of xs)
sum_exact xs h k = sum_from_exact 0 xs h (omega (arith, k)) ∙ ap pos (omega arith)

abbrev pub spends : List Spending → List ℤ
spends = map (λ (e : Spending). e.spend)

abbrev pub charged : List ChargebackLine → List ℤ
charged = map (λ (l : ChargebackLine). l.spend_mc)

split_total :
    (es : List Spending)
    → total_of (spends es) ≡ total_of (charged (lines_of es)) + total_of (without_center es)
unfolding total_of lines_of without_center
split_total [] = refl
split_total (e ∷ es) = elim (Option-cases e.center) [
  | inl q ↦ rw q (omega (arith, split_total es))
  | inr (name, q) ↦ rw q (omega (arith, split_total es))
]

inserted_total :
    (le : ChargebackLine → ChargebackLine → Bool) (l : ChargebackLine) (ls : List ChargebackLine)
    → total_of (charged (insert_by le l ls)) ≡ pos_part l.spend_mc + total_of (charged ls)
unfolding insert_by total_of
inserted_total le l [] = refl
inserted_total le l (m ∷ ls) = elim (Bool-cases (le l m)) [
  | inl e ↦ rw e refl
  | inr e ↦ rw e (omega (arith, inserted_total le l ls))
]

sorted_total :
    (le : ChargebackLine → ChargebackLine → Bool) (ls : List ChargebackLine)
    → total_of (charged (sort_by le ls)) ≡ total_of (charged ls)
unfolding sort_by total_of
sorted_total le [] = refl
sorted_total le (l ∷ ls) = omega (arith, inserted_total le l (sort_by le ls), sorted_total le ls)

-- No spend is negative on the lines or outside of them.
lines-All :
    (es : List Spending)
    → All IsNonnegative (spends es)
    → All (λ (l : ChargebackLine). IsNonnegative l.spend_mc) (lines_of es)
      × All IsNonnegative (without_center es)
unfolding lines_of without_center
lines-All [] h = (tt, tt)
lines-All (e ∷ es) h =
    let rest = lines-All es h.1 in
    elim (Option-cases e.center) [
      | inl q ↦ rw q (rest.0, (h.0, rest.1))
      | inr (name, q) ↦ rw q ((h.0, rest.0), rest.1)
    ]

All-map_charged :
    (ls : List ChargebackLine)
    → All (λ (l : ChargebackLine). IsNonnegative l.spend_mc) ls
    → All IsNonnegative (charged ls)
All-map_charged [] h = tt
All-map_charged (l ∷ ls) h = (h.0, All-map_charged ls h.1)

dearer_first_total : (a b : ChargebackLine) → dearer_first a b ≡ false → dearer_first b a ≡ true
unfolding dearer_first
dearer_first_total a b h = ground arith

dearer_first_trans :
    (a b c : ChargebackLine)
    → dearer_first a b ≡ true
    → dearer_first b c ≡ true
    → dearer_first a c ≡ true
unfolding dearer_first
dearer_first_trans a b c h k = ground arith

-- For spends that are not negative and add up within an i64: the lines of the report stand with the
-- dearest first, and their spends and what no cost center is charged for add up to the total, the
-- sum of all spends.
pub build-conserves :
    (org_id : Uuid) (start end : Text) (entries : List Spending)
    → All IsNonnegative (spends entries)
    → total_of (spends entries) ≤ i64_max
    → let report = build org_id start end entries in
      IsAscending dearer_first report.lines
      × (report.total_spend_mc ≡ pos (total_of (spends entries)))
      × (sum_from report.unattributed_mc (charged report.lines) ≡ report.total_spend_mc)
unfolding build
build-conserves org_id start end entries h k =
    let split = split_total entries in
    let sorted = sorted_total dearer_first (lines_of entries) in
    let parts = lines-All entries h in
    let all = sum_exact (spends entries) h k in
    let apart = sum_exact (without_center entries) parts.1 (omega (arith, split, k)) in
    let lines = All-map_charged (sort_by dearer_first (lines_of entries)) (
      sort_by-All dearer_first (λ (l : ChargebackLine). IsNonnegative l.spend_mc) (lines_of entries)
        parts.0) in
    (
      sort_by-IsAscending dearer_first dearer_first_total dearer_first_trans (lines_of entries),
      all,
      rw (apart, all)
          (sum_from_exact (total_of (without_center entries))
              (charged (sort_by dearer_first (lines_of entries))) lines
              (omega (arith, split, sorted, k))
            ∙ ap pos (omega (arith, split, sorted))),
    )
