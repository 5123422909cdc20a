-- ===== src/Usage.antt =====
-- apps/gateway/src/metering/usage.rs: the usage event, the keys of the monthly counters, `emit`, and
-- the reads of the counters. A Uuid is the text that it prints as; a `DateTime` is the month that
-- the keys are made of (years up to 9999, which `%Y` pads to four digits); `Utc::now()` is an
-- argument. Three fields of the event are left out: the floating-point ones and the JSON of
-- `techniques_fired`; no operation here reads them.
pub mod Counted
pub mod Event
use aegis_ai_gateway.Prelude.{
  ℕ, ◌+◌, ◌/◌, ◌%◌, ◌^◌, Bool, true, false, not, ◌||◌, List, [], ◌∷◌, ◌++◌, Option, none, some,
  if◌then◌else◌,
}
use aegis_ai_gateway.Int.{ℤ, pos, ltb_ℤ, eqb_ℤ, pos_part}
use aegis_ai_gateway.Int.I64.{wrap, wrapping_sub}
use aegis_ai_gateway.Error.{Result, ok, err}
use aegis_ai_gateway.Text.{Text, codes, to_ascii_lowercase}
use aegis_ai_gateway.Text.Decimal.{to_string, digits}
use aegis_ai_gateway.Store.{KvStore}
use aegis_ai_gateway.Store.Counters.{read_number}

abbrev pub Uuid : Type 0
Uuid = Text

pub record Month : Type 0 where
  pub year : ℕ
  pub month : ℕ

pub record UsageEvent : Type 0 where
  pub request_id : Uuid
  pub org_id : Uuid
  pub api_key_id : Option Uuid
  pub team_id : Option Uuid
  pub user_id : Option Uuid
  pub requested_model : Text
  pub served_model : Text
  pub provider : Text
  pub input_tokens : ℕ
  pub output_tokens : ℕ
  pub cached_input_tokens : ℕ
  pub cache_write_tokens : ℕ
  pub tokens_estimated : Bool
  pub baseline_cost_mc : ℤ
  pub actual_cost_mc : ℤ
  pub input_cost_mc : ℤ
  pub output_cost_mc : ℤ
  pub gross_savings_mc : ℤ
  pub aegis_fee_mc : ℤ
  pub routing_savings_mc : ℤ
  pub compression_savings_mc : ℤ
  pub cache_savings_mc : ℤ
  pub latency_ms : ℕ
  pub cache_hit : Bool
  pub cache_type : Option Text
  pub routing_reason : Text
  pub status_code : ℕ
  pub error_type : Option Text
  pub tokens_saved_by_compression : ℕ
  pub cache_bust_hits : ℕ
  pub region : Option Text
  pub reserved_mc : ℤ
  pub reserved_tokens : ℤ
  pub created_at : Month

unfoldable pub is_billable : UsageEvent → Bool
is_billable e = ltb_ℤ (pos 0) e.actual_cost_mc || e.cache_hit

unfoldable pub total_tokens : UsageEvent → ℕ
total_tokens e =
    (e.input_tokens + e.cached_input_tokens + e.cache_write_tokens + e.output_tokens) % 2 ^ 64

-- `{:02}`, for a month
two_digits : ℕ → Text
two_digits n = (b'0' + n / 10 % 10) ∷ (b'0' + n % 10) ∷ []

-- `{}{:02}` of the year and the month
month_suffix : Month → Text
unfolding two_digits
month_suffix at = digits at.year ++ two_digits at.month

-- `%Y-%m`
dashed_month : Month → Text
unfolding two_digits
dashed_month at = two_digits (at.year / 100) ++ two_digits at.year ++ b'-' ∷ two_digits at.month

unfoldable pub org_spend_key : Uuid → Month → Text
unfolding month_suffix
org_spend_key org_id at = codes "aegis:org:" ++ org_id ++ codes ":spend:" ++ month_suffix at

unfoldable pub org_requests_key : Uuid → Month → Text
unfolding month_suffix
org_requests_key org_id at = codes "aegis:org:" ++ org_id ++ codes ":requests:" ++ month_suffix at

unfoldable pub team_spend_key : Uuid → Month → Text
unfolding month_suffix
team_spend_key team_id at = codes "aegis:team:" ++ team_id ++ codes ":spend:" ++ month_suffix at

unfoldable pub key_spend_key : Uuid → Month → Text
unfolding month_suffix
key_spend_key api_key_id at = codes "aegis:key:" ++ api_key_id ++ codes ":spend:" ++ month_suffix at

unfoldable pub user_spend_key : Uuid → Month → Text
unfolding month_suffix
user_spend_key user_id at = codes "aegis:user:" ++ user_id ++ codes ":spend:" ++ month_suffix at

unfoldable pub user_tokens_key : Uuid → Month → Text
unfolding month_suffix
user_tokens_key user_id at = codes "aegis:user:" ++ user_id ++ codes ":tokens:" ++ month_suffix at

unfoldable pub team_tokens_key : Uuid → Month → Text
unfolding month_suffix
team_tokens_key team_id at = codes "aegis:team:" ++ team_id ++ codes ":tokens:" ++ month_suffix at

unfoldable pub org_tokens_key : Uuid → Month → Text
unfolding month_suffix
org_tokens_key org_id at = codes "aegis:org:" ++ org_id ++ codes ":tokens:" ++ month_suffix at

unfoldable pub org_savings_key : Uuid → Month → Text
unfolding month_suffix
org_savings_key org_id at = codes "aegis:org:" ++ org_id ++ codes ":savings:" ++ month_suffix at

unfoldable pub org_region_spend_key : Uuid → Text → Month → Text
unfolding dashed_month
org_region_spend_key org_id region at =
    codes "aegis:spend:org:"
    ++ org_id
    ++ codes ":region:"
    ++ to_ascii_lowercase region
    ++ b':' ∷ dashed_month at

-- 45 days
abbrev pub counter_ttl : ℕ
counter_ttl = 3888000000

abbrev pub usage_stream : Text
usage_stream = codes "aegis:usage_events"

abbrev pub usage_stream_max_len : ℕ
usage_stream_max_len = 1000000

key_for : (Uuid → Month → Text) → Month → Option Uuid → Option Text
key_for key at none = none
key_for key at (some id) = some (key id at)

region_key_for : Uuid → Month → Option Text → Option Text
region_key_for org_id at none = none
region_key_for org_id at (some region) = some (org_region_spend_key org_id region at)

spend_delta : UsageEvent → ℤ
spend_delta e = wrapping_sub e.actual_cost_mc e.reserved_mc

token_delta : UsageEvent → ℤ
token_delta e = wrapping_sub (wrap (pos (total_tokens e))) e.reserved_tokens

module _ {S : Type 0} ⦃k : KvStore S⦄ where
  -- An `incr_by` whose result is dropped.
  unfoldable pub bump : ℤ → Text → S → S
  bump by key s = (k.incr_by key by (some counter_ttl) s).1

  -- The same for a key that the event may not have.
  unfoldable pub bump_if_some : ℤ → Option Text → S → S
  unfolding bump
  bump_if_some by none s = s
  bump_if_some by (some key) s = bump by key s

  -- The counters, once the event is on the stream.
  unfoldable pub count_event : UsageEvent → S → S
  unfolding bump bump_if_some key_for region_key_for spend_delta token_delta
  count_event e s =
      let at = e.created_at in
      let spend = spend_delta e in
      let tokens = token_delta e in
      let s1 = if eqb_ℤ spend (pos 0) then s else bump spend (org_spend_key e.org_id at) s in
      let s2 = bump (pos 1) (org_requests_key e.org_id at) s1 in
      let s3 = bump e.gross_savings_mc (org_savings_key e.org_id at) s2 in
      let s4 = bump_if_some spend (key_for team_spend_key at e.team_id) s3 in
      let s5 = bump_if_some spend (key_for key_spend_key at e.api_key_id) s4 in
      let s6 = bump_if_some spend (region_key_for e.org_id at e.region) s5 in
      let s7 = if eqb_ℤ spend (pos 0) then s3 else s6 in
      let s8 = bump tokens (org_tokens_key e.org_id at) s7 in
      let s9 = bump_if_some tokens (key_for team_tokens_key at e.team_id) s8 in
      let s10 = bump_if_some tokens (key_for user_tokens_key at e.user_id) s9 in
      if eqb_ℤ tokens (pos 0) then s7 else s10

  -- `to_json` is serde_json's `to_string`.
  unfoldable pub emit : (UsageEvent → Result Text) → UsageEvent → S → Result Text × S
  unfolding count_event
  emit to_json e s = elim (to_json e) [
    | err bad ↦ (err bad, s)
    | ok payload ↦
        let (appended, s1) = k.stream_append usage_stream payload usage_stream_max_len s in
        elim appended [ err bad ↦ (err bad, s1) | ok id ↦ (ok id, count_event e s1) ]
  ]

  unfoldable pub read_counter : Text → S → ℤ × S
  read_counter key s = let (found, s1) = k.get key s in (read_number found, s1)

  unfoldable pub current_spend : Uuid → Month → S → ℤ × S
  unfolding read_counter
  current_spend org_id now s = read_counter (org_spend_key org_id now) s

  unfoldable pub current_region_spend : Uuid → Text → Month → S → ℤ × S
  unfolding read_counter
  current_region_spend org_id region now s = read_counter (org_region_spend_key org_id region now) s

  unfoldable pub current_requests : Uuid → Month → S → ℕ × S
  unfolding read_counter
  current_requests org_id now s =
      let (n, s1) = read_counter (org_requests_key org_id now) s in (pos_part n, s1)

  unfoldable pub current_team_spend : Uuid → Month → S → ℤ × S
  unfolding read_counter
  current_team_spend team_id now s = read_counter (team_spend_key team_id now) s

  unfoldable pub current_key_spend : Uuid → Month → S → ℤ × S
  unfolding read_counter
  current_key_spend api_key_id now s = read_counter (key_spend_key api_key_id now) s

  unfoldable pub current_savings : Uuid → Month → S → ℤ × S
  unfolding read_counter
  current_savings org_id now s = read_counter (org_savings_key org_id now) s
