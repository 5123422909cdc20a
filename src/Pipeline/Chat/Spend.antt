-- ===== src/Pipeline/Chat/Spend.antt =====
-- apps/gateway/src/routes/openai_compat.rs: what a chat request does to the spend of its organisation.
use aegis_ai_gateway.Prelude.{◌^◌, ◌≤◌, ◌≡◌, refl, ap, subst, ◌∙◌, arith, inl, inr, some, List}
use aegis_ai_gateway.Auth.{AuthContext}
use aegis_ai_gateway.Budget.{
  Reservation, BudgetDecision, BudgetOutcome, allowed, denied, check_and_reserve, release,
  give_back,
}
use aegis_ai_gateway.Budget.Bumps.{
  bump_laws, amount_at, amount_at_zero, give_back_down, give_back-IsUp,
}
use aegis_ai_gateway.Budget.OrgLimit.{org_reserved}
use aegis_ai_gateway.Budget.Reserve.{
  granted_keys, refusal_keeps_counters, granted_tokens, check_and_reserve-IsUp,
}
use aegis_ai_gateway.Error.{Result, ok, err, AegisError}
use aegis_ai_gateway.Int.{ℤ, pos, pos_part, ◌+ℤ◌, ◌-ℤ◌}
use aegis_ai_gateway.Int.I64.{InI64}
use aegis_ai_gateway.Limits.{BudgetLimits}
use aegis_ai_gateway.Pipeline.{PipelineOutcome, usage_event}
use aegis_ai_gateway.Pipeline.Chat.{
  settled_event, finish_chat, record_rejection_for_model, after_check,
}
use aegis_ai_gateway.Store.{KvStore}
use aegis_ai_gateway.Store.Counters.{Counters}
use aegis_ai_gateway.Text.{Text, codes}
use aegis_ai_gateway.Usage.{
  UsageEvent, Uuid, Month, emit, org_spend_key, usage_stream, usage_stream_max_len,
}
use aegis_ai_gateway.Usage.Counted.{count_event_spend}
use aegis_ai_gateway.Usage.Event.{new_event, rejected_event}

module _ {S : Type 0} ⦃k : KvStore S⦄ (c : Counters S) (to_json : UsageEvent → Result Text) where
  -- An event that serde_json writes moves the spend of its organisation by its cost less what was
  -- reserved for it.
  emit_spend :
      (e : UsageEvent) (payload : Text) (s : S)
      → c.IsUp s
      → to_json e ≡ ok payload
      → InI64 (e.actual_cost_mc -ℤ e.reserved_mc)
      → InI64
          (c.counter (org_spend_key e.org_id e.created_at) s +ℤ (e.actual_cost_mc -ℤ e.reserved_mc))
      → c.counter (org_spend_key e.org_id e.created_at) (emit to_json e s).1
        ≡ c.counter (org_spend_key e.org_id e.created_at) s +ℤ (e.actual_cost_mc -ℤ e.reserved_mc)
  unfolding emit
  emit_spend e payload s u written fits total_fits =
      let j = org_spend_key e.org_id e.created_at in
      let (id, answered) = c.append_answers usage_stream payload usage_stream_max_len s u in
      let s1 = (k.stream_append usage_stream payload usage_stream_max_len s).1 in
      let same = c.append_keeps usage_stream payload usage_stream_max_len j s u in
      let up = c.append_up usage_stream payload usage_stream_max_len s u in
      rw (emit, written, answered)
        (count_event_spend c e s1 up fits (rw same total_fits) ∙ rw same refl)

  module _ (auth : AuthContext) (limits : BudgetLimits) (region : Text) (now : Month)
      (mc tokens : ℤ) (s : S) (up : c.IsUp s) (small_mc : pos_part mc ≤ 2 ^ 58)
      (small_tokens : pos_part tokens ≤ 2 ^ 58)
      (small_counters : (j : Text) → pos_part (c.counter j s) ≤ 2 ^ 62) (r : Reservation)
      (granted : (check_and_reserve auth limits (some region) mc tokens now s).0 ≡ allowed r) where
    abbrev spend : S → ℤ
    spend = c.counter (org_spend_key auth.org_id now)

    -- The return of the tokens does not touch the spend.
    no_spend_back :
        (s' : S)
        → c.IsUp s'
        → amount_at (org_spend_key auth.org_id now) r.token_keys (pos_part tokens) ≡ 0
        → spend (give_back r.reserved_tokens r.token_keys s') ≡ spend s'
    no_spend_back s' u none_held =
        let j = org_spend_key auth.org_id now in
        let q = pos_part tokens in
        let range = c.counter_in_range j s' u in
        elim (granted_tokens c auth limits (some region) now mc tokens s up small_mc small_tokens
          small_counters r granted) [
            | inl e ↦
                let zero_at = amount_at_zero j r.token_keys in
                rw e (
                  give_back_down c r.token_keys 0 s' j u (omega arith)
                    (rw zero_at (omega (bump_laws, range)))
                  ∙ rw zero_at (omega bump_laws))
            | inr e ↦ rw e (
                give_back_down c r.token_keys q s' j u (omega (arith, small_tokens))
                  (rw none_held (omega (bump_laws, range)))
                ∙ rw none_held (omega bump_laws))
          ]

    released :
        (s' : S)
        → c.IsUp s'
        → InI64 (spend s' -ℤ r.amount_mc)
        → spend (release r s') ≡ spend s' -ℤ r.amount_mc
    unfolding release
    released s' u fits =
        let j = org_spend_key auth.org_id now in
        let p = pos_part mc in
        let q = pos_part tokens in
        let own =
          org_reserved c auth limits (some region) now mc tokens s up small_mc small_tokens
            small_counters r granted in
        let amount : pos p ≡ r.amount_mc =
          (granted_keys c auth limits (some region) now mc tokens s up small_mc small_tokens
            small_counters r granted).2 in
        let fits' : InI64 (spend s' -ℤ pos (amount_at j r.keys p)) = rw (own.0, amount) fits in
        let money : spend (give_back r.amount_mc r.keys s') ≡ spend s' -ℤ r.amount_mc =
          subst (λ a. spend (give_back a r.keys s') ≡ spend s' -ℤ a) amount
            (give_back_down c r.keys p s' j u (omega (arith, small_mc)) fits'
              ∙ ap (λ n. spend s' -ℤ pos n) own.0) in
        no_spend_back (give_back r.amount_mc r.keys s') (give_back-IsUp c r.amount_mc r.keys s' u)
          own.1
        ∙ money

    served :
        (o : PipelineOutcome) (payload : Text) (s' : S)
        → c.IsUp s'
        → to_json (settled_event o auth region now r) ≡ ok payload
        → InI64 (o.savings.actual_cost -ℤ r.amount_mc)
        → InI64 (spend s' +ℤ (o.savings.actual_cost -ℤ r.amount_mc))
        → spend (finish_chat to_json auth region now r (ok o, s')).1
          ≡ spend s' +ℤ (o.savings.actual_cost -ℤ r.amount_mc)
    unfolding finish_chat settled_event usage_event new_event
    served o payload s' u written fits total_fits =
        emit_spend (settled_event o auth region now r) payload s' u written fits total_fits

    -- While the store answers, no counter is near the bounds of i64 and the numbers that follow stay
    -- in range: the check of a request that is let through moves the month's spend of the
    -- organisation up by the projection; and in whatever state the pipeline and other requests
    -- leave the store, the end of the handler moves it by the cost less the projection when the
    -- request was served and its event is written, and down by the projection when it failed. So a
    -- served request moves the spend by its cost in all, and a failed one by nothing.
    pub finish_chat_settles :
        (o : PipelineOutcome) (payload : Text) (e : AegisError) (s' : S)
        → c.IsUp s'
        → to_json (settled_event o auth region now r) ≡ ok payload
        → InI64 (o.savings.actual_cost -ℤ r.amount_mc)
        → InI64 (spend s' +ℤ (o.savings.actual_cost -ℤ r.amount_mc))
        → InI64 (spend s' -ℤ r.amount_mc)
        → (spend (check_and_reserve auth limits (some region) mc tokens now s).1
            ≡ spend s +ℤ r.amount_mc)
          × (spend (finish_chat to_json auth region now r (ok o, s')).1
              ≡ spend s' +ℤ (o.savings.actual_cost -ℤ r.amount_mc))
          × (spend (finish_chat to_json auth region now r (err e, s')).1 ≡ spend s' -ℤ r.amount_mc)
    unfolding finish_chat
    finish_chat_settles o payload e s' u written fits served_fits failed_fits = (
      (org_reserved c auth limits (some region) now mc tokens s up small_mc small_tokens
            small_counters r granted).2
          ∙ ap (λ a. spend s +ℤ a)
              (granted_keys c auth limits (some region) now mc tokens s up small_mc small_tokens
                small_counters r granted).2,
      served o payload s' u written fits served_fits,
      released s' u failed_fits,
    )

  rejection_keeps :
      (auth : AuthContext) (limits : BudgetLimits) (region model : Text) (now : Month)
      (request_id : Uuid) (breaches : List BudgetDecision) (payload : Text)
      (outcome : BudgetOutcome) (s : S)
      → c.IsUp s
      → outcome ≡ denied breaches
      → to_json (
          rejected_event request_id auth.org_id auth.api_key_id model 402
            (codes "budget_exceeded")
            0
            now)
        ≡ ok payload
      → c.counter
          (org_spend_key auth.org_id now)
          (after_check to_json request_id auth limits region model now (outcome, s)).1
        ≡ c.counter (org_spend_key auth.org_id now) s
  unfolding after_check record_rejection_for_model rejected_event
  rejection_keeps auth limits region model now request_id breaches payload outcome s u refused
        written =
      let event =
        rejected_event request_id auth.org_id auth.api_key_id model 402 (codes "budget_exceeded") 0
          now in
      let range = c.counter_in_range (org_spend_key auth.org_id now) s u in
      rw refused (
        emit_spend event payload s u written (omega bump_laws) (omega (bump_laws, range))
        ∙ omega bump_laws)

  -- While the store answers and no counter is near the bounds of i64: a request that the budgets
  -- refuse, and whose rejection is written, leaves the month's spend of its organisation as it was.
  pub after_check_refused :
      (auth : AuthContext) (limits : BudgetLimits) (region model : Text) (now : Month)
      (mc tokens : ℤ) (s : S) (request_id : Uuid) (breaches : List BudgetDecision) (payload : Text)
      → c.IsUp s
      → pos_part mc ≤ 2 ^ 58
      → pos_part tokens ≤ 2 ^ 58
      → ((j : Text) → pos_part (c.counter j s) ≤ 2 ^ 62)
      → (check_and_reserve auth limits (some region) mc tokens now s).0 ≡ denied breaches
      → to_json (
          rejected_event request_id auth.org_id auth.api_key_id model 402
            (codes "budget_exceeded")
            0
            now)
        ≡ ok payload
      → c.counter
          (org_spend_key auth.org_id now)
          (after_check to_json request_id auth limits region model now
            (check_and_reserve auth limits (some region) mc tokens now s)).1
        ≡ c.counter (org_spend_key auth.org_id now) s
  after_check_refused auth limits region model now mc tokens s request_id breaches payload up
        small_mc small_tokens small_counters refused written =
      let j = org_spend_key auth.org_id now in
      let s1 = (check_and_reserve auth limits (some region) mc tokens now s).1 in
      let same =
        refusal_keeps_counters c auth limits (some region) now mc tokens s up small_mc small_tokens
          small_counters breaches refused j in
      let up' =
        check_and_reserve-IsUp c auth limits (some region) now mc tokens s up small_mc small_tokens
          small_counters in
      rejection_keeps auth limits region model now request_id breaches payload
        (check_and_reserve auth limits (some region) mc tokens now s).0 s1 up' refused written
      ∙ same
