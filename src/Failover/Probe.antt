-- ===== src/Failover/Probe.antt =====
-- apps/gateway/src/routes/openai_compat.rs over engine/fallback.rs: a probe that finds no credential.
use aegis_ai_gateway.Prelude.{
  ℕ, ◌≡◌, refl, arith, ◌-◌, ◌+◌, ◌≤◌, leb, le→leb, ◌⊎◌, Bool-cases, true, false, Option, none, some,
  Option-cases, inl, inr,
}
use aegis_ai_gateway.Error.{AegisError, Result, ok, err}
use aegis_ai_gateway.Text.{Text}
use aegis_ai_gateway.Text.Equality.{text_eq_refl}
use aegis_ai_gateway.Table.{lookup, insert, lookup-insert}
use aegis_ai_gateway.Types.Request.{NormalizedRequest}
use aegis_ai_gateway.Usage.{Uuid}
use aegis_ai_gateway.Fallback.{
  FallbackAttempt, ProviderHealth, BreakerEntry, opened, half_open, state, entry_of, entry_state,
  is_available, lets_through, state_since, open_duration, try_probe, claim_probe,
}
use aegis_ai_gateway.KeyPool.{Credential}
use aegis_ai_gateway.Failover.{
  Upstream, Gateway, World, skipped, failed, for_model, resolve_credential, call_with, probed,
  with_stored, shared_credential, ProviderCredential, try_on, try_attempt,
}

-- The circuit of a provider has been opened and its probe is taken.
pub record IsStranded (id : Text) (h : ProviderHealth) : Type 0 where
  pub since : ℕ
  pub taken : BreakerEntry
  pub found : lookup id h ≡ some taken
  pub is_probing : taken.probing ≡ true
  pub was_opened : taken.opened_at ≡ some since

stranded_state :
    (id : Text) (h : ProviderHealth) (now : ℕ)
    → IsStranded id h
    → (state h now id ≡ half_open) ⊎ (state h now id ≡ opened)
unfolding state entry_state state_since
stranded_state id h now st = elim (Bool-cases (leb open_duration (now - st.since))) [
  | inl late ↦ inl (rw (state, st.found) (rw st.was_opened (rw late refl)))
  | inr early ↦ inr (rw (state, st.found) (rw st.was_opened (rw early refl)))
]

insert-IsStranded :
    (id : Text) (h : ProviderHealth) (st : IsStranded id h) → IsStranded id (insert id st.taken h)
insert-IsStranded id h st = record {
  since = st.since;
  taken = st.taken;
  found = rw (lookup-insert id id st.taken h, text_eq_refl id) refl;
  is_probing = st.is_probing;
  was_opened = st.was_opened;
}

-- The probe of a stranded circuit is not granted, and the circuit stays stranded.
stranded_claim :
    (id : Text) (h : ProviderHealth) (now : ℕ)
    → IsStranded id h
    → state h now id ≡ half_open
    → try_probe now id h ≡ (false, insert id (entry_of h id) h)
unfolding try_probe claim_probe entry_of
stranded_claim id h now st e = rw e (ground (arith, st.found, st.is_probing))

entry_of-stranded :
    (id : Text) (h : ProviderHealth) (st : IsStranded id h) → entry_of h id ≡ st.taken
unfolding entry_of
entry_of-stranded id h st = rw (entry_of, st.found) refl

module _ {E : Type 0} (u : Upstream E) (g : Gateway) (org_id : Uuid)
    (request : NormalizedRequest) where
  -- A later attempt on a stranded provider is skipped, and leaves it stranded.
  abbrev pub Skips : Text → FallbackAttempt → World E → Type 0
  Skips id b v =
      ((try_attempt u g org_id request b v).0 ≡ skipped)
      × IsStranded id (try_attempt u g org_id request b v).1.health

  try_on_skips :
      (model id : Text) (v : World E)
      → IsStranded id v.health
      → ((try_on u g org_id request model id v).0 ≡ skipped)
        × IsStranded id (try_on u g org_id request model id v).1.health
  unfolding try_on probed is_available lets_through
  try_on_skips model id v st = elim (stranded_state id v.health (u.now v.outside) st) [
    | inl e ↦
        let claim = stranded_claim id v.health (u.now v.outside) st e in
        rw (e, claim)
          (refl, rw (entry_of-stranded id v.health st) (insert-IsStranded id v.health st))
    | inr e ↦ rw e (refl, st)
  ]

  stranded-Skips :
      (id : Text) (b : FallbackAttempt) (v : World E)
      → for_model g.adapters b.model_id ≡ some id
      → IsStranded id v.health
      → Skips id b v
  unfolding try_attempt
  stranded-Skips id b v named st = rw (try_attempt, named) (try_on_skips b.model_id id v st)

  with_stored-health :
      (id : Text) (found : Result (Option ProviderCredential)) (w : World E)
      → (with_stored u g id found w).1.health ≡ w.health
  unfolding with_stored shared_credential
  with_stored-health id (err x) w = refl
  with_stored-health id (ok none) w = refl
  with_stored-health id (ok (some stored)) w = refl

  resolve_credential-health :
      (id : Text) (w : World E) → (resolve_credential u g org_id id w).1.health ≡ w.health
  unfolding resolve_credential shared_credential
  resolve_credential-health id w = elim (Option-cases u.find_default_credential) [
    | inl e ↦ rw (resolve_credential, e) refl
    | inr (find, e) ↦
        rw (resolve_credential, e)
          (with_stored-health id (find org_id id w.outside).0
            (record w { outside = (find org_id id w.outside).1 }))
  ]

  call_with_error :
      (model id : Text) (x : AegisError) (out : Result Credential × World E)
      → out.0 ≡ err x
      → call_with u g org_id request model id out ≡ (failed x, out.1)
  unfolding call_with
  call_with_error model id x (err y, v) h = let same : y ≡ x = cc in rw same refl
  call_with_error model id x (ok c, v) h = absurd (cc)

  module _ (id : Text) (w : World E) (e : BreakerEntry) (since : ℕ)
      (found : lookup id w.health ≡ some e) (was_opened : e.opened_at ≡ some since)
      (due : since + open_duration ≤ u.now w.outside) (free : e.probing ≡ false) where
    abbrev pub claimed : World E
    claimed = record w { health = insert id (record e { probing = true }) w.health }

    is_half_open : state w.health (u.now w.outside) id ≡ half_open
    unfolding state entry_state state_since
    is_half_open =
        let late : leb open_duration (u.now w.outside - since) ≡ true =
          le→leb open_duration (u.now w.outside - since) (omega (arith, due)) in
        rw (state, found) (rw was_opened (rw late refl))

    takes_probe : try_probe (u.now w.outside) id w.health ≡ (true, claimed.health)
    unfolding try_probe claim_probe entry_of
    takes_probe = rw is_half_open (ground (arith, found, free))

    claimed-IsStranded : IsStranded id claimed.health
    claimed-IsStranded = record {
      since = since;
      taken = record e { probing = true };
      found = rw (lookup-insert id id (record e { probing = true }) w.health, text_eq_refl id) refl;
      is_probing = refl;
      was_opened = was_opened;
    }

    -- When an attempt takes the probe of a provider whose circuit is due for one and then finds no
    -- credential, the circuit is stranded: each later attempt on the provider, at any time and in any
    -- world whose circuit is still stranded, is skipped and leaves it so.
    pub missing_credential_strands :
        (a : FallbackAttempt) (x : AegisError)
        → for_model g.adapters a.model_id ≡ some id
        → (resolve_credential u g org_id id claimed).0 ≡ err x
        → ((try_attempt u g org_id request a w).0 ≡ failed x)
          × IsStranded id (try_attempt u g org_id request a w).1.health
          × ((b : FallbackAttempt) (v : World E)
              → for_model g.adapters b.model_id ≡ some id
              → IsStranded id v.health
              → Skips id b v)
    unfolding try_attempt try_on probed is_available lets_through
    missing_credential_strands a x named no_key =
        let call =
          call_with_error a.model_id id x (resolve_credential u g org_id id claimed) no_key in
        (
          rw (try_attempt, named) (rw (is_half_open, takes_probe) (rw call refl)),
          rw (try_attempt, named)
              (rw (is_half_open, takes_probe)
                (rw call (rw (resolve_credential-health id claimed) claimed-IsStranded))),
          λ b v. stranded-Skips id b v,
        )
