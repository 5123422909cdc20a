-- ===== src/Budget/Tests.antt =====
-- The theorems on budgets at a concrete request: an organisation with a hard limit of 100.
use mathlib.Core.List.{Memᴰ}
use mathlib.Core.List.Memᴰ.{head, tail}
use aegis_ai_gateway.Prelude.{ℕ, ◌+◌, ◌^◌, ◌≤◌, ◌≡◌, refl, arith, true, false, [], ◌∷◌, none, some}
use aegis_ai_gateway.Error.{err, store}
use aegis_ai_gateway.Store.{KvStore}
use aegis_ai_gateway.Int.{pos, ◌+ℤ◌, ◌≤ℤ◌, ◌<ℤ◌, max_ℤ, pos_part}
use aegis_ai_gateway.Int.{◌-ℤ◌}
use aegis_ai_gateway.Int.I64.{saturating_add, saturate, wrapping_sub, wrap}
use aegis_ai_gateway.Table.{lookup, insert}
use aegis_ai_gateway.Text.{Text, codes, text_eq}
use aegis_ai_gateway.Store.Memory.{MemoryStore, memory_store, incr_by, number_of}
use aegis_ai_gateway.Store.Memory.Counter.{memory_counters, counter}
use aegis_ai_gateway.Usage.{Month, org_spend_key, key_spend_key}
use aegis_ai_gateway.Auth.{AuthContext}
use aegis_ai_gateway.Limits.{BudgetLimits, default_limits, hard_limit_of}
use aegis_ai_gateway.Budget.{
  Scope, scopes, BudgetDecision, Reservation, allowed, denied, check_and_reserve, release,
}
use aegis_ai_gateway.Budget.Reserve.{
  refusal_keeps_counters, release_keeps_counters, allowed_within_limits, allowed_counts,
}
use aegis_ai_gateway.Budget.Bumps.{amount_at, bump_laws}
use aegis_ai_gateway.Budget.OrgLimit.{Check, checked, IsCalm, spend_stays_within_limit}
use aegis_ai_gateway.Budget.Outage.{outage_lets_through}

abbrev empty : MemoryStore
empty = record {
  poisoned = false;
  values = [];
  windows = [];
  streams = [];
  stream_seq = 0;
  now = 1000;
}

abbrev january : Month
january = record { year = 7; month = 1 }

abbrev auth : AuthContext
auth = record {
  org_id = codes "o";
  api_key_id = some (codes "k");
  team_id = none;
  user_id = none;
  plan = "pro";
  savings_share_bp = 2000;
  zero_retention = false;
  rate_limit_per_minute = 60;
  monthly_budget_mc = none;
  allowed_models = none;
  region = codes "eu";
  role = none;
  is_admin = false;
  team_name = none;
  user_email = none;
  default_routing_mode = none;
}

abbrev limits : BudgetLimits
limits = record default_limits { org = some (hard_limit_of (pos 100)) }

breach : BudgetDecision
breach = record { allowed = false; spend = pos 0; limit = some (pos 100); scope = "organization" }

test_refused :
    (check_and_reserve auth limits none (pos 120) (pos 9) january empty).0 ≡ denied (breach ∷ [])
unfolding check_and_reserve breach scopes incr_by saturating_add saturate ◌+ℤ◌ lookup insert text_eq
    key_spend_key org_spend_key max_ℤ wrapping_sub wrap ◌-ℤ◌
test_refused = refl

held_for_fifty : Reservation
held_for_fifty = record {
  keys = key_spend_key (codes "k") january ∷ org_spend_key (codes "o") january ∷ [];
  amount_mc = pos 50;
  token_keys = [];
  reserved_tokens = pos 0;
  resolved = false;
}

test_allowed :
    (check_and_reserve auth limits none (pos 50) (pos 9) january empty).0 ≡ allowed held_for_fifty
unfolding check_and_reserve held_for_fifty scopes incr_by saturating_add saturate ◌+ℤ◌ lookup insert
    text_eq key_spend_key org_spend_key max_ℤ wrapping_sub wrap ◌-ℤ◌
test_allowed = refl

empty-IsUp : memory_counters.IsUp empty
empty-IsUp = record { usable = refl; clock_fits = omega arith }

empty_counters : (j : Text) → pos_part (counter j empty) ≤ 2 ^ 62
unfolding counter lookup number_of
empty_counters j = omega arith

refusal_keeps_counters_example :
    counter
      (org_spend_key (codes "o") january)
      (check_and_reserve auth limits none (pos 120) (pos 9) january empty).1
    ≡ counter (org_spend_key (codes "o") january) empty
refusal_keeps_counters_example =
    refusal_keeps_counters memory_counters auth limits none january (pos 120) (pos 9) empty
      empty-IsUp (omega arith) (omega arith) empty_counters (breach ∷ []) test_refused
      (org_spend_key (codes "o") january)

release_keeps_counters_example :
    counter
      (org_spend_key (codes "o") january)
      (release held_for_fifty (check_and_reserve auth limits none (pos 50) (pos 9) january empty).1)
    ≡ counter (org_spend_key (codes "o") january) empty
release_keeps_counters_example =
    release_keeps_counters memory_counters auth limits none january (pos 50) (pos 9) empty
      empty-IsUp (omega arith) (omega arith) empty_counters held_for_fifty test_allowed
      (org_spend_key (codes "o") january)

allowed_counts_example :
    counter
      (org_spend_key (codes "o") january)
      (check_and_reserve auth limits none (pos 50) (pos 9) january empty).1
    ≡ counter (org_spend_key (codes "o") january) empty
      +ℤ pos (
          amount_at (org_spend_key (codes "o") january) held_for_fifty.keys 50
          + amount_at (org_spend_key (codes "o") january) held_for_fifty.token_keys 9)
allowed_counts_example =
    allowed_counts memory_counters auth limits none january (pos 50) (pos 9) empty empty-IsUp
      (omega arith) (omega arith) empty_counters held_for_fifty test_allowed
      (org_spend_key (codes "o") january)

org_scope : Scope
org_scope = record {
  name = "organization";
  key = org_spend_key (codes "o") january;
  limit = some (pos 100);
  hard = true;
  token_key = none;
  token_limit = none;
}

org_scope_is_second : Memᴰ org_scope (scopes auth limits none january)
unfolding scopes org_scope
org_scope_is_second = tail (head refl)

org_scope_is_hard : org_scope.hard ≡ true
unfolding org_scope
org_scope_is_hard = refl

org_scope_limit : org_scope.limit ≡ some (pos 100)
unfolding org_scope
org_scope_limit = refl

allowed_within_limits_example :
    (counter org_scope.key empty +ℤ pos 50 ≤ℤ pos 100) × (counter org_scope.key empty <ℤ pos 100)
allowed_within_limits_example =
    allowed_within_limits memory_counters auth limits none january (pos 50) (pos 9) empty empty-IsUp
      (omega arith) (omega arith) empty_counters held_for_fifty org_scope (pos 100) test_allowed
      org_scope_is_second org_scope_is_hard org_scope_limit

-- A store that is out of reach.
abbrev unreachable : KvStore ℕ
unreachable = record {
  get = λ key s. (err (store "down"), s);
  set_ex = λ key value ttl_ms s. (err (store "down"), s);
  del = λ key s. (err (store "down"), s);
  del_prefix = λ prefix s. (err (store "down"), s);
  incr_by = λ key by ttl s. (err (store "down"), s);
  rate_limit = λ key limit window_ms s. (err (store "down"), s);
  stream_append = λ stream payload max_len s. (err (store "down"), s);
  stream_read = λ stream after limit s. (err (store "down"), s);
}

outage_lets_through_example :
    check_and_reserve ⦃k = unreachable⦄ auth limits none (pos 120) (pos 9) january 0 ≡ (
      allowed (record {
        keys = [];
        amount_mc = max_ℤ (pos 120) (pos 0);
        token_keys = [];
        reserved_tokens = pos 0;
        resolved = false;
      }),
      0,
    )
outage_lets_through_example =
    outage_lets_through ⦃k = unreachable⦄ auth limits none january (pos 120) (pos 9) 0
      (λ key by ttl. (store "down", refl))

nothing_spent : counter (org_spend_key (codes "o") january) empty ≤ℤ pos 100
unfolding counter lookup number_of
nothing_spent = omega arith

-- Two requests of fifty, which fill the limit.
abbrev fifty : Check
fifty = record { auth = auth; limits = limits; region = none; cost = pos 50; tokens = pos 9 }

nothing_counted : (j : Text) → counter j empty ≡ pos 0
unfolding counter lookup number_of
nothing_counted j = refl

amount_at_two : (j a b : Text) (p : ℕ) → amount_at j (a ∷ b ∷ []) p ≤ p + p
unfolding amount_at
amount_at_two j a b p = ground arith

fifty_amount :
    (j : Text) → amount_at j held_for_fifty.keys 50 + amount_at j held_for_fifty.token_keys 9 ≤ 100
unfolding amount_at held_for_fifty
fifty_amount j =
    let two =
      amount_at_two j (key_spend_key (codes "k") january) (org_spend_key (codes "o") january) 50 in
    omega (arith, two)

fifty_counters :
    (j : Text)
    → pos_part (counter j (check_and_reserve auth limits none (pos 50) (pos 9) january empty).1)
      ≤ 2 ^ 62
fifty_counters j =
    let moved =
      allowed_counts memory_counters auth limits none january (pos 50) (pos 9) empty empty-IsUp
        (omega arith) (omega arith) empty_counters held_for_fifty test_allowed j in
    let start : counter j empty ≡ pos 0 = nothing_counted j in
    rw (moved, start) (omega (bump_laws, fifty_amount j))

two_fifties-IsCalm : IsCalm memory_counters january (fifty ∷ fifty ∷ []) empty
unfolding IsCalm
two_fifties-IsCalm =
    (omega arith, omega arith, empty_counters, (omega arith, omega arith, fifty_counters, tt))

spend_stays_within_limit_example :
    counter
      (org_spend_key (codes "o") january)
      (checked memory_counters january (fifty ∷ fifty ∷ []) empty)
    ≤ℤ pos 100
spend_stays_within_limit_example =
    spend_stays_within_limit memory_counters january (codes "o") (pos 100) (fifty ∷ fifty ∷ [])
      empty empty-IsUp two_fifties-IsCalm ((refl, refl), ((refl, refl), tt)) nothing_spent
