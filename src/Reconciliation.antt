-- ===== src/Reconciliation.antt =====
-- apps/gateway/src/workers/reconciliation.rs: the spend counters against the recorded usage. The
-- database is an argument: the ids of the active organisations and the recorded spend and requests
-- of an organisation. Logs, metrics and the timer are left out.
use aegis_ai_gateway.Prelude.{
  ℕ, Bool, not, Option, none, some, List, [], ◌∷◌, ◌++◌, ◌==◌, if◌then◌else◌,
}
use aegis_ai_gateway.Int.{ℤ, pos, ltb_ℤ}
use aegis_ai_gateway.Int.I64.{wrapping_sub, wrapping_neg, wrapping_abs}
use aegis_ai_gateway.Error.{Result, ok, err}
use aegis_ai_gateway.Money.{MicroCents}
use aegis_ai_gateway.Store.{KvStore}
use aegis_ai_gateway.Text.{Text, codes}
use aegis_ai_gateway.Text.Decimal.{parse, to_string}
use aegis_ai_gateway.Usage.{Uuid, Month, org_spend_key, current_spend}

abbrev pub drift_threshold : MicroCents
drift_threshold = pos 10_000

-- Three days, in milliseconds.
abbrev pub observation_ttl : ℕ
observation_ttl = 259_200_000

pub record Reconciliation : Type 0 where
  pub org_id : Uuid
  pub counter_spend_mc : ℤ
  pub recorded_spend_mc : ℤ
  pub drift_mc : ℤ
  pub requests_recorded : ℤ

unfoldable pub is_significant : Reconciliation → Bool
is_significant r = ltb_ℤ drift_threshold (wrapping_abs r.drift_mc)

-- The strings `counter_ahead`, `records_ahead` and `exact`.
pub data Direction : Type 0 where
  counter_ahead records_ahead exact_match : Direction

unfoldable pub direction : Reconciliation → Direction
direction r =
    if ltb_ℤ (pos 0) r.drift_mc
    then counter_ahead
    else if ltb_ℤ r.drift_mc (pos 0)
    then records_ahead
    else exact_match

unfoldable pub last_observation_key : Uuid → Text
last_observation_key org_id = codes "aegis:reconcile:last:" ++ org_id

-- `None` when each handled request has its usage event.
unfoldable pub metering_gap : (requests events : ℕ) → Bool
metering_gap requests events = not (requests == events)

pub record UsageSummary : Type 0 where
  pub actual_cost_mc : ℤ
  pub requests : ℤ

module _ {S : Type 0} ⦃k : KvStore S⦄ where
  unfoldable pub reconcile_org :
      (usage_summary : Uuid → Result UsageSummary) → Uuid → Month → S → Result Reconciliation × S
  reconcile_org usage_summary org_id now s =
      let (counter_spend, s1) = current_spend org_id now s in
      elim (usage_summary org_id) [
        | err e ↦ (err e, s1)
        | ok summary ↦ (
          ok record {
            org_id = org_id;
            counter_spend_mc = counter_spend;
            recorded_spend_mc = summary.actual_cost_mc;
            drift_mc = wrapping_sub counter_spend summary.actual_cost_mc;
            requests_recorded = summary.requests;
          },
          s1,
        )
      ]

  unfoldable pub remember : Reconciliation → S → S
  remember r s =
      (k.set_ex (last_observation_key r.org_id) (to_string r.drift_mc) observation_ttl s).1

  -- `.ok().flatten().and_then(|v| v.parse().ok())`
  unfoldable pub previous_drift : Reconciliation → S → Option ℤ × S
  previous_drift r s =
      let (found, s1) = k.get (last_observation_key r.org_id) s in
      (elim found [ ok (some v) ↦ parse v | _ ↦ none ], s1)

  unfoldable pub repair : Month → Reconciliation → S → S
  repair now r s =
      let (total, s1) = k.incr_by (org_spend_key r.org_id now) (wrapping_neg r.drift_mc) none s in
      elim total [ err e ↦ s1 | ok _ ↦ (k.del (last_observation_key r.org_id) s1).1 ]

  unfoldable pub repair_observed : Month → Reconciliation → Option ℤ → S → S
  unfolding remember repair
  repair_observed now r none s = remember r s
  repair_observed now r (some previous) s =
      if ltb_ℤ previous r.drift_mc then remember r s else repair now r s

  unfoldable pub repair_if_confirmed : Month → Reconciliation → S → S
  unfolding repair_observed previous_drift
  repair_if_confirmed now r s = elim (direction r) [
    | counter_ahead ↦ let (previous, s1) = previous_drift r s in repair_observed now r previous s1
    | _ ↦ s
  ]

  unfoldable pub run_org : (Uuid → Result UsageSummary) → Month → Uuid → S → S
  unfolding reconcile_org repair_if_confirmed
  run_org usage_summary now org_id s =
      let (outcome, s1) = reconcile_org usage_summary org_id now s in
      elim outcome [
        | err e ↦ s1
        | ok r ↦
            if is_significant r
            then repair_if_confirmed now r s1
            else (k.del (last_observation_key r.org_id) s1).1
      ]

  unfoldable pub run_orgs : (Uuid → Result UsageSummary) → Month → List Uuid → S → S
  unfolding run_org
  run_orgs usage_summary now [] s = s
  run_orgs usage_summary now (org_id ∷ rest) s =
      run_orgs usage_summary now rest (run_org usage_summary now org_id s)

  unfoldable pub run_once :
      (org_ids : Result (List Uuid)) → (Uuid → Result UsageSummary) → Month → S → S
  unfolding run_orgs
  run_once (err e) usage_summary now s = s
  run_once (ok ids) usage_summary now s = run_orgs usage_summary now ids s
