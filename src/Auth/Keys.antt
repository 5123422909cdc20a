-- ===== src/Auth/Keys.antt =====
-- apps/gateway/src/middleware/auth.rs: a key uses the gateway and does not administer it.
use aegis_ai_gateway.Prelude.{◌≤◌, ◌≡◌, refl, arith, true, false}
use aegis_ai_gateway.Auth.{KeyContext, from_key, can_write, can_read}

-- Whoever holds a key may read, may not write, is no administrator, and may make at least one
-- request a minute.
pub from_key-permissions :
    (c : KeyContext)
    → (can_write (from_key c) ≡ false)
      × (can_read (from_key c) ≡ true)
      × ((from_key c).is_admin ≡ false)
      × (1 ≤ (from_key c).rate_limit_per_minute)
unfolding from_key can_write can_read
from_key-permissions c = (refl, refl, refl, omega arith)
