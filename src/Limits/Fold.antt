-- ===== src/Limits/Fold.antt =====
-- apps/gateway/src/middleware/budget.rs: `BudgetLimits::from_rows` against its rows.
use mathlib.Core.List.{Memᴰ}
use mathlib.Core.List.Memᴰ.{head, tail}
use aegis_ai_gateway.Prelude.{
  ◌≡◌, arith, refl, ap, Bool, true, false, ◌||◌, not, Bool-cases, inl, inr, Option, none, some,
  List, [], ◌∷◌, ◌++◌, filter,
}
use aegis_ai_gateway.Int.{ℤ, ◌≤ℤ◌}
use aegis_ai_gateway.Limits.{
  Limit, BudgetLimits, Budget, Caller, default_limits, tighter, is_unscoped, is_same,
  is_same_region, is_monthly, fold_row, fold_rows, from_rows,
}

-- There is a ceiling, of at most `bound`.
unfoldable pub AtMost : ℤ → Option Limit → Type 0
AtMost bound none = ⊥
AtMost bound (some l) = l.limit_mc ≤ℤ bound

-- A ceiling folded in holds afterwards, and so does whatever held before.
tighter_new : (old : Option Limit) (l : Limit) → AtMost l.limit_mc (some (tighter old l))
unfolding tighter AtMost
tighter_new none l = omega arith
tighter_new (some o) l = ground arith

tighter_keeps :
    (bound : ℤ) (old : Option Limit) (l : Limit)
    → AtMost bound old
    → AtMost bound (some (tighter old l))
unfolding tighter AtMost
tighter_keeps bound none l h = elim h [ ]
tighter_keeps bound (some o) l h = ground arith

scoped_keeps_org :
    (caller : Caller) (l : BudgetLimits) (row : Budget)
    → is_unscoped row ≡ false
    → (fold_row caller l row).org ≡ l.org
unfolding fold_row
scoped_keeps_org caller l row e = rw e (elim (Bool-cases (is_same row.team_id caller.team_id)) [
  | inl t ↦ rw t refl
  | inr t ↦ rw t (elim (Bool-cases (is_same row.api_key_id caller.api_key_id)) [
    | inl k ↦ rw k refl
    | inr k ↦ rw k (ground arith)
  ])
])

fold_row_new :
    (caller : Caller) (l : BudgetLimits) (row : Budget)
    → is_unscoped row ≡ true
    → (fold_row caller l row).org
      ≡ some (tighter l.org (record { limit_mc = row.limit_mc; hard = row.hard_limit }))
unfolding fold_row
fold_row_new caller l row e = rw e refl

fold_row_keeps :
    (caller : Caller) (bound : ℤ) (l : BudgetLimits) (row : Budget)
    → AtMost bound l.org
    → AtMost bound (fold_row caller l row).org
fold_row_keeps caller bound l row h = elim (Bool-cases (is_unscoped row)) [
  | inl e ↦
      rw (fold_row_new caller l row e)
        (tighter_keeps bound l.org (record { limit_mc = row.limit_mc; hard = row.hard_limit }) h)
  | inr e ↦ rw (scoped_keeps_org caller l row e) h
]

fold_rows_keep :
    (caller : Caller) (bound : ℤ) (l : BudgetLimits) (rows : List Budget)
    → AtMost bound l.org
    → AtMost bound (fold_rows caller l rows).org
unfolding fold_rows
fold_rows_keep caller bound l [] h = h
fold_rows_keep caller bound l (row ∷ rows) h =
    fold_rows_keep caller bound (fold_row caller l row) rows (fold_row_keeps caller bound l row h)

kept_AtMost :
    (caller : Caller) (l : BudgetLimits) (rows : List Budget) (row : Budget)
    → Memᴰ row rows
    → is_monthly row ≡ true
    → is_unscoped row ≡ true
    → AtMost row.limit_mc (fold_rows caller l (filter is_monthly rows)).org
unfolding fold_rows
kept_AtMost caller l [] row i monthly unscoped = elim i [ ]
kept_AtMost caller l (first ∷ rows) row (head same) monthly unscoped =
    let limit : Limit = record { limit_mc = row.limit_mc; hard = row.hard_limit } in
    let here : AtMost row.limit_mc (fold_row caller l row).org =
      rw (fold_row_new caller l row unscoped) (tighter_new l.org limit) in
    rw⁻¹ same (
      rw monthly
        (fold_rows_keep caller row.limit_mc (fold_row caller l row) (filter is_monthly rows) here))
kept_AtMost caller l (first ∷ rows) row (tail i) monthly unscoped =
    elim (Bool-cases (is_monthly first)) [
      | inl e ↦ rw e (kept_AtMost caller (fold_row caller l first) rows row i monthly unscoped)
      | inr e ↦ rw e (kept_AtMost caller l rows row i monthly unscoped)
    ]

-- Every monthly row of the organisation as a whole bounds the organisation's ceiling, wherever it
-- stands among the rows and whatever the others say.
pub from_rows_bounds_org :
    (rows : List Budget) (caller : Caller) (row : Budget)
    → Memᴰ row rows
    → is_monthly row ≡ true
    → is_unscoped row ≡ true
    → AtMost row.limit_mc (from_rows rows caller).org
unfolding from_rows
from_rows_bounds_org rows caller row = kept_AtMost caller default_limits rows row

-- A row that names neither the caller's team, key, user nor region, and names one of these.
unfoldable pub is_foreign : Caller → Budget → Bool
is_foreign caller row = not (
    is_unscoped row
    || is_same row.team_id caller.team_id
    || is_same row.api_key_id caller.api_key_id
    || is_same row.user_id caller.user_id
    || is_same_region row.region caller.region)

none_of :
    (a b c d e : Bool)
    → not (a || b || c || d || e) ≡ true
    → (a ≡ false) × (b ≡ false) × (c ≡ false) × (d ≡ false) × (e ≡ false)
none_of a b c d e h = ground arith

fold_row_foreign :
    (caller : Caller) (l : BudgetLimits) (row : Budget)
    → is_foreign caller row ≡ true
    → fold_row caller l row ≡ l
unfolding fold_row is_foreign
fold_row_foreign caller l row e =
    let others =
      none_of (is_unscoped row) (is_same row.team_id caller.team_id)
        (is_same row.api_key_id caller.api_key_id) (is_same row.user_id caller.user_id)
        (is_same_region row.region caller.region) e in
    rw (others.0, others.1, others.2, others.3, others.4) refl

fold_rows_skip :
    (caller : Caller) (l : BudgetLimits) (before after : List Budget) (row : Budget)
    → is_foreign caller row ≡ true
    → fold_rows caller l (filter is_monthly (before ++ row ∷ after))
      ≡ fold_rows caller l (filter is_monthly (before ++ after))
unfolding fold_rows
fold_rows_skip caller l [] after row e = elim (Bool-cases (is_monthly row)) [
  | inl m ↦
      rw m
        (ap (λ x. fold_rows caller x (filter is_monthly after)) (fold_row_foreign caller l row e))
  | inr m ↦ rw m refl
]
fold_rows_skip caller l (first ∷ before) after row e = elim (Bool-cases (is_monthly first)) [
  | inl m ↦ rw m (fold_rows_skip caller (fold_row caller l first) before after row e)
  | inr m ↦ rw m (fold_rows_skip caller l before after row e)
]

-- A budget of another team, key, user or region changes no limit of the caller: the rows with it and
-- without it give the same limits.
pub from_rows_skips_foreign :
    (caller : Caller) (before after : List Budget) (row : Budget)
    → is_foreign caller row ≡ true
    → from_rows (before ++ row ∷ after) caller ≡ from_rows (before ++ after) caller
unfolding from_rows
from_rows_skips_foreign caller before after row e =
    fold_rows_skip caller default_limits before after row e
