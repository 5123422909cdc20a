-- ===== src/Usage/Counted.antt =====
-- apps/gateway/src/metering/usage.rs: what `emit` does to an organisation's counters once the event is
-- on the stream.
use aegis_ai_gateway.Prelude.{
  ◌≡◌, refl, ap, ◌∙◌, arith, Bool, true, false, Bool-cases, inl, inr, [], ◌∷◌, ◌++◌, Option, none,
  some, if◌then◌else◌,
}
use aegis_ai_gateway.Int.{ℤ, pos, pos_part, neg_part, ◌+ℤ◌, ◌-ℤ◌, eqb_ℤ, int_laws}
use aegis_ai_gateway.Int.I64.{InI64, saturating_add_exact, wrapping_sub_exact}
use aegis_ai_gateway.Text.{Text, text_eq, codes}
use aegis_ai_gateway.Text.Equality.{text_eq_refl}
use aegis_ai_gateway.Store.{KvStore}
use aegis_ai_gateway.Store.Counters.{Counters}
use aegis_ai_gateway.Usage.{
  user_spend_key, Uuid, Month, UsageEvent, bump, bump_if_some, counter_ttl, count_event,
  org_spend_key, org_requests_key, org_savings_key, org_tokens_key, team_spend_key, key_spend_key,
  org_region_spend_key, team_tokens_key, user_tokens_key, key_for, region_key_for, spend_delta,
  token_delta, month_suffix,
}

-- Two keys of one organisation differ if they differ behind its name.
same_front : (a x y m n : Text) → text_eq (a ++ x ++ m) (a ++ y ++ n) ≡ text_eq (x ++ m) (y ++ n)
unfolding text_eq
same_front [] x y m n = refl
same_front (c ∷ a) x y m n = ground (arith, same_front a x y m n)

module _ (org : Uuid) (at : Month) where
  requests_apart : text_eq (org_requests_key org at) (org_spend_key org at) ≡ false
  unfolding org_requests_key org_spend_key
  requests_apart =
      rw
        (same_front (codes "aegis:org:" ++ org) (codes ":requests:") (codes ":spend:")
          (month_suffix at) (month_suffix at))
        (unfold text_eq in refl)

  savings_apart : text_eq (org_savings_key org at) (org_spend_key org at) ≡ false
  unfolding org_savings_key org_spend_key
  savings_apart =
      rw
        (same_front (codes "aegis:org:" ++ org) (codes ":savings:") (codes ":spend:")
          (month_suffix at) (month_suffix at))
        (unfold text_eq in refl)

  pub tokens_apart : text_eq (org_tokens_key org at) (org_spend_key org at) ≡ false
  unfolding org_tokens_key org_spend_key
  tokens_apart =
      rw
        (same_front (codes "aegis:org:" ++ org) (codes ":tokens:") (codes ":spend:")
          (month_suffix at) (month_suffix at))
        (unfold text_eq in refl)

pub user_apart :
    (id org : Uuid) (at : Month) → text_eq (user_spend_key id at) (org_spend_key org at) ≡ false
unfolding user_spend_key org_spend_key text_eq
user_apart id org at = refl

pub team_apart :
    (id org : Uuid) (at : Month) → text_eq (team_spend_key id at) (org_spend_key org at) ≡ false
unfolding team_spend_key org_spend_key text_eq
team_apart id org at = refl

pub key_apart :
    (id org : Uuid) (at : Month) → text_eq (key_spend_key id at) (org_spend_key org at) ≡ false
unfolding key_spend_key org_spend_key text_eq
key_apart id org at = refl

pub region_apart :
    (r org : Text) (at : Month)
    → text_eq (org_region_spend_key org r at) (org_spend_key org at) ≡ false
unfolding org_region_spend_key org_spend_key text_eq
region_apart r org at = refl

pub team_tokens_apart :
    (id org : Uuid) (at : Month) → text_eq (team_tokens_key id at) (org_spend_key org at) ≡ false
unfolding team_tokens_key org_spend_key text_eq
team_tokens_apart id org at = refl

pub user_tokens_apart :
    (id org : Uuid) (at : Month) → text_eq (user_tokens_key id at) (org_spend_key org at) ≡ false
unfolding user_tokens_key org_spend_key text_eq
user_tokens_apart id org at = refl

zero_added : (a d : ℤ) → eqb_ℤ d (pos 0) ≡ true → a ≡ a +ℤ d
zero_added a d z =
    let zero : d ≡ pos 0 = ground arith in omega (int_laws, ap pos_part zero, ap neg_part zero)

module _ {S : Type 0} ⦃k : KvStore S⦄ (c : Counters S) where
  bump_keeps :
      (by : ℤ) (key j : Text) (s : S)
      → c.IsUp s
      → text_eq key j ≡ false
      → c.IsUp (bump by key s) × (c.counter j (bump by key s) ≡ c.counter j s)
  unfolding bump
  bump_keeps by key j s u other = (
    c.incr_up key by counter_ttl s u,
    rw (c.incr_counter key j by counter_ttl s u (omega arith) (omega arith)) (rw other refl),
  )

  -- A counter of the organisation's spend after a step, and that the store still answers.
  abbrev Keeps : Text → S → S → Type 0
  Keeps j s s' = c.IsUp s' × (c.counter j s' ≡ c.counter j s)

  Keeps-trans : (j : Text) (s s' s'' : S) → Keeps j s s' → Keeps j s' s'' → Keeps j s s''
  Keeps-trans j s s' s'' h h' = (h'.0, h'.1 ∙ h.1)

  Keeps-if :
      (j : Text) (b : Bool) (s x y : S) → Keeps j s x → Keeps j s y → Keeps j s (if b then x else y)
  Keeps-if j true s x y hx hy = hx
  Keeps-if j false s x y hx hy = hy

  id-Keeps :
      (by : ℤ) (key : Uuid → Month → Text) (at : Month) (o : Option Uuid) (j : Text) (s : S)
      → c.IsUp s
      → ((id : Uuid) → text_eq (key id at) j ≡ false)
      → Keeps j s (bump_if_some by (key_for key at o) s)
  unfolding bump_if_some key_for
  id-Keeps by key at none j s u other = (u, refl)
  id-Keeps by key at (some id) j s u other = bump_keeps by (key id at) j s u (other id)

  region-Keeps :
      (by : ℤ) (org : Uuid) (at : Month) (o : Option Text) (j : Text) (s : S)
      → c.IsUp s
      → ((r : Text) → text_eq (org_region_spend_key org r at) j ≡ false)
      → Keeps j s (bump_if_some by (region_key_for org at o) s)
  unfolding bump_if_some region_key_for
  region-Keeps by org at none j s u other = (u, refl)
  region-Keeps by org at (some r) j s u other =
      bump_keeps by (org_region_spend_key org r at) j s u (other r)

  -- The state behind the organisation's own spend, and the rest of the count.
  abbrev spent : UsageEvent → S → S
  spent e s =
      if eqb_ℤ (spend_delta e) (pos 0)
      then s
      else bump (spend_delta e) (org_spend_key e.org_id e.created_at) s

  spent-IsUp : (e : UsageEvent) (s : S) → c.IsUp s → c.IsUp (spent e s)
  unfolding bump
  spent-IsUp e s u = elim (Bool-cases (eqb_ℤ (spend_delta e) (pos 0))) [
    | inl z ↦ rw z u
    | inr nz ↦
        rw nz (c.incr_up (org_spend_key e.org_id e.created_at) (spend_delta e) counter_ttl s u)
  ]

  others_keep :
      (e : UsageEvent) (s : S)
      → c.IsUp s
      → Keeps (org_spend_key e.org_id e.created_at) (spent e s) (count_event e s)
  unfolding count_event
  others_keep e s u =
      let at = e.created_at in
      let j = org_spend_key e.org_id at in
      let spend = spend_delta e in
      let tokens = token_delta e in
      let s1 = spent e s in
      let s2 = bump (pos 1) (org_requests_key e.org_id at) s1 in
      let s3 = bump e.gross_savings_mc (org_savings_key e.org_id at) s2 in
      let s4 = bump_if_some spend (key_for team_spend_key at e.team_id) s3 in
      let s5 = bump_if_some spend (key_for key_spend_key at e.api_key_id) s4 in
      let s6 = bump_if_some spend (region_key_for e.org_id at e.region) s5 in
      let s7 = if eqb_ℤ spend (pos 0) then s3 else s6 in
      let s8 = bump tokens (org_tokens_key e.org_id at) s7 in
      let s9 = bump_if_some tokens (key_for team_tokens_key at e.team_id) s8 in
      let s10 = bump_if_some tokens (key_for user_tokens_key at e.user_id) s9 in
      let h2 : Keeps j s1 s2 =
        bump_keeps (pos 1) (org_requests_key e.org_id at) j s1 (spent-IsUp e s u)
          (requests_apart e.org_id at) in
      let h3 : Keeps j s2 s3 =
        bump_keeps e.gross_savings_mc (org_savings_key e.org_id at) j s2 h2.0
          (savings_apart e.org_id at) in
      let h4 : Keeps j s3 s4 =
        id-Keeps spend team_spend_key at e.team_id j s3 h3.0 (λ id. team_apart id e.org_id at) in
      let h5 : Keeps j s4 s5 =
        id-Keeps spend key_spend_key at e.api_key_id j s4 h4.0 (λ id. key_apart id e.org_id at) in
      let h6 : Keeps j s5 s6 =
        region-Keeps spend e.org_id at e.region j s5 h5.0 (λ r. region_apart r e.org_id at) in
      let h36 = Keeps-trans j s3 s4 s6 h4 (Keeps-trans j s4 s5 s6 h5 h6) in
      let h7 : Keeps j s3 s7 = Keeps-if j (eqb_ℤ spend (pos 0)) s3 s3 s6 (h3.0, refl) h36 in
      let h8 : Keeps j s7 s8 =
        bump_keeps tokens (org_tokens_key e.org_id at) j s7 h7.0 (tokens_apart e.org_id at) in
      let h9 : Keeps j s8 s9 =
        id-Keeps tokens team_tokens_key at e.team_id j s8 h8.0
          (λ id. team_tokens_apart id e.org_id at) in
      let h10 : Keeps j s9 s10 =
        id-Keeps tokens user_tokens_key at e.user_id j s9 h9.0
          (λ id. user_tokens_apart id e.org_id at) in
      let h710 = Keeps-trans j s7 s8 s10 h8 (Keeps-trans j s8 s9 s10 h9 h10) in
      let h17 = Keeps-trans j s1 s2 s7 h2 (Keeps-trans j s2 s3 s7 h3 h7) in
      Keeps-trans j s1 s7 (if eqb_ℤ tokens (pos 0) then s7 else s10) h17
        (Keeps-if j (eqb_ℤ tokens (pos 0)) s7 s7 s10 (h7.0, refl) h710)

  -- An event moves the month's spend of its organisation by its cost less what was reserved for it,
  -- while the store answers and the numbers stay in range: every other counter that it touches has
  -- another key.
  pub count_event_spend :
      (e : UsageEvent) (s : S)
      → c.IsUp s
      → InI64 (e.actual_cost_mc -ℤ e.reserved_mc)
      → InI64
          (c.counter (org_spend_key e.org_id e.created_at) s +ℤ (e.actual_cost_mc -ℤ e.reserved_mc))
      → c.counter (org_spend_key e.org_id e.created_at) (count_event e s)
        ≡ c.counter (org_spend_key e.org_id e.created_at) s +ℤ (e.actual_cost_mc -ℤ e.reserved_mc)
  unfolding bump spend_delta
  count_event_spend e s u fits total_fits =
      let j = org_spend_key e.org_id e.created_at in
      let delta = e.actual_cost_mc -ℤ e.reserved_mc in
      let exact : spend_delta e ≡ delta = wrapping_sub_exact e.actual_cost_mc e.reserved_mc fits in
      (others_keep e s u).1 ∙ elim (Bool-cases (eqb_ℤ (spend_delta e) (pos 0))) [
        | inl z ↦ rw z (zero_added (c.counter j s) delta (rw exact at z))
        | inr nz ↦ rw nz (
            rw
              (
                c.incr_counter j j (spend_delta e) counter_ttl s u (omega arith) (omega arith),
                text_eq_refl j,
                exact,
              )
              (saturating_add_exact (c.counter j s) delta total_fits))
      ]
