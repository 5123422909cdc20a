-- ===== src/RateLimit/Check.antt =====
-- apps/gateway/src/middleware/rate_limit.rs: `check` on `MemoryStore`.
use aegis_ai_gateway.Prelude.{ℕ, ◌≡◌, refl, false, Bool-cases, inl, inr, some, max}
use aegis_ai_gateway.Error.{ok}
use aegis_ai_gateway.Text.{Text, text_eq}
use aegis_ai_gateway.Table.{lookup, lookup-insert}
use aegis_ai_gateway.Store.{RateLimitOutcome}
use aegis_ai_gateway.Store.Memory.{MemoryStore, memory_store, rate_limit}
use aegis_ai_gateway.Usage.{Uuid}
use aegis_ai_gateway.Auth.{AuthContext}
use aegis_ai_gateway.RateLimit.{check, check_key, key_window, org_window, rejected, window}

-- Windows of other keys are left alone.
rate_limit_others :
    (key j : Text) (limit w : ℕ) (s : MemoryStore)
    → text_eq key j ≡ false
    → lookup j (rate_limit key limit w s).1.windows ≡ lookup j s.windows
unfolding rate_limit
rate_limit_others key j limit w s other = elim (Bool-cases s.poisoned) [
  | inl down ↦ rw down refl
  | inr up ↦ rw (up, lookup-insert key j, other) refl
]

-- The windows of a key and of an organisation are different keys.
windows_differ : (key_id org_id : Uuid) → text_eq (key_window key_id) (org_window org_id) ≡ false
unfolding key_window org_window text_eq
windows_differ key_id org_id = refl

refused_by_key :
    (auth : AuthContext) (id : Uuid) (d : RateLimitOutcome) (s : MemoryStore)
    → (rate_limit (key_window id) (max auth.rate_limit_per_minute 1) window s).0 ≡ ok d
    → d.allowed ≡ false
    → check_key auth id s ≡ (
      ok (rejected d (max auth.rate_limit_per_minute 1) "key"),
      (rate_limit (key_window id) (max auth.rate_limit_per_minute 1) window s).1,
    )
unfolding check_key
refused_by_key auth id d s answer refused = rw (check_key, answer, refused) refl

check-check_key :
    (auth : AuthContext) (id : Uuid) (s : MemoryStore)
    → auth.api_key_id ≡ some id
    → check auth s ≡ check_key auth id s
unfolding check
check-check_key auth id s keyed = rw (check, keyed) refl

-- The organisation's window is asked only once the key's own window has let the request through: a
-- request that its key refuses leaves the window of its organisation as it was.
pub key_refusal_spares_org :
    (auth : AuthContext) (id : Uuid) (d : RateLimitOutcome) (s : MemoryStore)
    → auth.api_key_id ≡ some id
    → (rate_limit (key_window id) (max auth.rate_limit_per_minute 1) window s).0 ≡ ok d
    → d.allowed ≡ false
    → ((check auth s).0 ≡ ok (rejected d (max auth.rate_limit_per_minute 1) "key"))
      × (lookup (org_window auth.org_id) (check auth s).1.windows
          ≡ lookup (org_window auth.org_id) s.windows)
key_refusal_spares_org auth id d s keyed answer refused = rw (check-check_key auth id s keyed) (
    rw (refused_by_key auth id d s answer refused) (
      refl,
      rate_limit_others (key_window id) (org_window auth.org_id) (max auth.rate_limit_per_minute 1)
          window s (windows_differ id auth.org_id),
    ))
