-- ===== src/Auth.antt =====
-- apps/gateway/src/middleware/auth.rs: who a request is from, once authenticated, and what the
-- caller may do. Resolving a key or a session is I/O and is not modelled.
pub mod Keys
use text.Mathlib.Text.{◌==◌ as str_eq}
use aegis_ai_gateway.Prelude.{ℕ, max, Bool, true, false, ◌||◌, String, List, Option, none, some}
use aegis_ai_gateway.Int.{ℤ, pos_part}
use aegis_ai_gateway.Text.{Text}
use aegis_ai_gateway.Usage.{Uuid}

pub record AuthContext : Type 0 where
  pub org_id : Uuid
  pub api_key_id : Option Uuid
  pub team_id : Option Uuid
  pub user_id : Option Uuid
  pub plan : String
  pub savings_share_bp : ℕ
  pub zero_retention : Bool
  pub rate_limit_per_minute : ℕ
  pub monthly_budget_mc : Option ℤ
  pub allowed_models : Option (List Text)
  pub region : Text
  pub role : Option String
  pub is_admin : Bool
  pub team_name : Option Text
  pub user_email : Option Text
  pub default_routing_mode : Option Text

-- A resolved key; `allowed_models` is JSON that has been read.
pub record KeyContext : Type 0 where
  pub api_key_id : Uuid
  pub org_id : Uuid
  pub team_id : Option Uuid
  pub assigned_to_user_id : Option Uuid
  pub rate_limit_per_minute : ℤ
  pub monthly_budget_mc : Option ℤ
  pub allowed_models : Option (List Text)
  pub plan : String
  pub savings_share_bp : ℤ
  pub zero_retention : Bool
  pub org_region : Text
  pub team_name : Option Text
  pub user_email : Option Text
  pub key_default_routing_mode : Option Text
  pub team_default_routing_mode : Option Text
  pub org_default_routing_mode : Option Text

unfoldable pub or_else_text : Option Text → Option Text → Option Text
or_else_text none other = other
or_else_text (some t) other = some t

-- The part of a number that is not negative is what `max(0)` leaves.
unfoldable pub from_key : KeyContext → AuthContext
unfolding or_else_text
from_key c = record {
  org_id = c.org_id;
  api_key_id = some c.api_key_id;
  team_id = c.team_id;
  user_id = c.assigned_to_user_id;
  plan = c.plan;
  savings_share_bp = pos_part c.savings_share_bp;
  zero_retention = c.zero_retention;
  rate_limit_per_minute = max (pos_part c.rate_limit_per_minute) 1;
  monthly_budget_mc = c.monthly_budget_mc;
  allowed_models = c.allowed_models;
  region = c.org_region;
  role = none;
  is_admin = false;
  team_name = c.team_name;
  user_email = c.user_email;
  default_routing_mode =
      or_else_text (or_else_text c.key_default_routing_mode c.team_default_routing_mode)
        c.org_default_routing_mode;
}

unfoldable pub can_write : AuthContext → Bool
can_write auth = elim auth.role [
  | some role ↦ str_eq role "owner" || str_eq role "admin"
  | none ↦ elim auth.api_key_id [ some _ ↦ false | none ↦ false ]
]

unfoldable pub can_read : AuthContext → Bool
can_read auth = elim auth.role [
  | some _ ↦ true
  | none ↦ elim auth.api_key_id [ some _ ↦ true | none ↦ false ]
]
