-- ===== src/Budget/Outage.antt =====
-- apps/gateway/src/middleware/budget.rs: the check while the store does not answer.
use aegis_ai_gateway.Prelude.{ℕ, ◌≡◌, refl, ap, ◌∙◌, false, Option, some, List, [], ◌∷◌}
use aegis_ai_gateway.Int.{ℤ, pos, max_ℤ}
use aegis_ai_gateway.Text.{Text}
use aegis_ai_gateway.Store.{KvStore}
use aegis_ai_gateway.Usage.{Month, counter_ttl}
use aegis_ai_gateway.Error.{AegisError, err}
use aegis_ai_gateway.Auth.{AuthContext}
use aegis_ai_gateway.Limits.{BudgetLimits}
use aegis_ai_gateway.Budget.{Scope, scopes, allowed, reserve_scopes, decide, check_and_reserve}

module _ {S : Type 0} ⦃k : KvStore S⦄ where
  -- Each try to add to a key ends in an error and changes nothing.
  abbrev pub IsDown : S → Type 0
  IsDown s =
      (key : Text) (by : ℤ) (ttl : Option ℕ)
      → (x : AegisError) × (k.incr_by key by ttl s ≡ (err x, s))

  nothing_held :
      (all : List Scope) (mc tokens : ℤ) (s : S)
      → IsDown s
      → reserve_scopes all mc tokens s
        ≡ record { held = []; held_tokens = []; breaches = []; store = s }
  unfolding reserve_scopes
  nothing_held [] mc tokens s down = refl
  nothing_held (scope ∷ rest) mc tokens s down =
      let answer = (down scope.key mc (some counter_ttl)).1 in
      rw (reserve_scopes, ap (λ r. r.0) answer)
        (ap (reserve_scopes rest mc tokens) (ap (λ r. r.1) answer)
          ∙ nothing_held rest mc tokens s down)

  -- While the store is down, so that each try to add to a counter ends in an error and changes nothing,
  -- every request is let through, whatever its limits, and nothing is held for it; the reservation
  -- still names the projected cost as its amount.
  pub outage_lets_through :
      (auth : AuthContext) (limits : BudgetLimits) (region : Option Text) (now : Month)
      (mc tokens : ℤ) (s : S)
      → IsDown s
      → check_and_reserve auth limits region mc tokens now s ≡ (
        allowed (record {
          keys = [];
          amount_mc = max_ℤ mc (pos 0);
          token_keys = [];
          reserved_tokens = pos 0;
          resolved = false;
        }),
        s,
      )
  unfolding check_and_reserve decide
  outage_lets_through auth limits region now mc tokens s down =
      rw
        (nothing_held (scopes auth limits region now) (max_ℤ mc (pos 0)) (max_ℤ tokens (pos 0)) s
          down)
        refl
