-- ===== src/Limits.antt =====
-- apps/gateway/src/middleware/budget.rs: the ceilings that apply to a request, folded from the rows
-- of the `budgets` table (apps/gateway/src/db/repo.rs, `Budget`). Loading and caching them is I/O
-- and is not modelled.
pub mod Fold
use aegis_ai_gateway.Prelude.{
  Bool, true, false, ◌&&◌, ◌||◌, List, [], ◌∷◌, Option, none, some, if◌then◌else◌, filter,
}
use aegis_ai_gateway.Int.{ℤ, ltb_ℤ, eqb_ℤ, min_ℤ}
use aegis_ai_gateway.Text.{Text, codes, text_eq, eq_ignore_ascii_case}
use aegis_ai_gateway.Usage.{Uuid}

pub record Limit : Type 0 where
  pub limit_mc : ℤ
  pub hard : Bool

abbrev pub hard_limit_of : ℤ → Limit
hard_limit_of limit_mc = record { limit_mc = limit_mc; hard = true }

pub record BudgetLimits : Type 0 where
  pub org : Option Limit
  pub team : Option Limit
  pub key : Option Limit
  pub region : Option Limit
  pub user : Option Limit
  pub org_tokens : Option ℤ
  pub team_tokens : Option ℤ
  pub user_tokens : Option ℤ

abbrev pub default_limits : BudgetLimits
default_limits = record {
  org = none;
  team = none;
  key = none;
  region = none;
  user = none;
  org_tokens = none;
  team_tokens = none;
  user_tokens = none;
}

is_none : {A : Type 0} → Option A → Bool
is_none none = true
is_none (some _) = false

unfoldable pub is_empty : BudgetLimits → Bool
unfolding is_none
is_empty l =
    is_none l.org
    && is_none l.team
    && is_none l.key
    && is_none l.region
    && is_none l.user
    && is_none l.org_tokens
    && is_none l.team_tokens
    && is_none l.user_tokens

-- The columns of a row that are read here.
pub record Budget : Type 0 where
  pub team_id : Option Uuid
  pub api_key_id : Option Uuid
  pub user_id : Option Uuid
  pub region : Option Text
  pub period : Text
  pub limit_mc : ℤ
  pub limit_tokens : Option ℤ
  pub hard_limit : Bool

unfoldable pub tighter : Option Limit → Limit → Limit
tighter none candidate = candidate
tighter (some current) candidate =
    if ltb_ℤ current.limit_mc candidate.limit_mc
    then current
    else if eqb_ℤ current.limit_mc candidate.limit_mc
    then record { limit_mc = current.limit_mc; hard = current.hard || candidate.hard }
    else candidate

-- `if let Some(t) = row.limit_tokens { held = Some(held.map_or(t, |x| x.min(t))) }`
unfoldable pub tighter_tokens : Option ℤ → Option ℤ → Option ℤ
tighter_tokens held none = held
tighter_tokens none (some t) = some t
tighter_tokens (some x) (some t) = some (min_ℤ x t)

-- `Some(x) == y` for an identifier, and the comparison of regions, where `a` is a row's.
unfoldable pub is_same : Option Uuid → Option Uuid → Bool
is_same (some a) (some b) = text_eq a b
is_same _ _ = false

unfoldable pub is_same_region : Option Text → Option Text → Bool
is_same_region (some a) (some b) = eq_ignore_ascii_case b a
is_same_region _ _ = false

unfoldable pub is_unscoped : Budget → Bool
unfolding is_none
is_unscoped row =
    is_none row.team_id && is_none row.api_key_id && is_none row.user_id && is_none row.region

unfoldable pub is_monthly : Budget → Bool
is_monthly row = eq_ignore_ascii_case row.period (codes "monthly")

-- Whose limits a request's are.
pub record Caller : Type 0 where
  pub team_id : Option Uuid
  pub api_key_id : Option Uuid
  pub user_id : Option Uuid
  pub region : Option Text

-- The body of the loop of `from_rows`.
unfoldable pub fold_row : Caller → BudgetLimits → Budget → BudgetLimits
unfolding is_unscoped is_same is_same_region
fold_row caller l row =
    let limit : Limit = record { limit_mc = row.limit_mc; hard = row.hard_limit } in
    if is_unscoped row
    then record l {
      org = some (tighter l.org limit);
      org_tokens = tighter_tokens l.org_tokens row.limit_tokens;
    }
    else if is_same row.team_id caller.team_id
    then record l {
      team = some (tighter l.team limit);
      team_tokens = tighter_tokens l.team_tokens row.limit_tokens;
    }
    else if is_same row.api_key_id caller.api_key_id
    then record l { key = some (tighter l.key limit) }
    else if is_same row.user_id caller.user_id
    then record l {
      user = some (tighter l.user limit);
      user_tokens = tighter_tokens l.user_tokens row.limit_tokens;
    }
    else if is_same_region row.region caller.region
    then record l { region = some (tighter l.region limit) }
    else l

unfoldable pub fold_rows : Caller → BudgetLimits → List Budget → BudgetLimits
unfolding fold_row
fold_rows caller l [] = l
fold_rows caller l (row ∷ rows) = fold_rows caller (fold_row caller l row) rows

unfoldable pub from_rows : List Budget → Caller → BudgetLimits
unfolding fold_rows is_monthly
from_rows rows caller = fold_rows caller default_limits (filter is_monthly rows)
