-- ===== src/Failover/Retries.antt =====
-- apps/gateway/src/routes/openai_compat.rs: the tries of `call_with_retries`.
use aegis_ai_gateway.Prelude.{
  ℕ, zero, suc, ◌+◌, ◌-◌, ◌≤◌, ◌≡◌, refl, sym, ap, ◌∙◌, arith, true, false, ◌++◌, Bool-cases, inl,
  inr,
}
use aegis_ai_gateway.Error.{AegisError, Result, ok, err}
use aegis_ai_gateway.Fallback.{is_retryable, retry_delay}
use aegis_ai_gateway.Text.{Text, codes}
use aegis_ai_gateway.Types.Request.{NormalizedRequest}
use aegis_ai_gateway.Types.Response.{NormalizedResponse}
use aegis_ai_gateway.KeyPool.{Credential}
use aegis_ai_gateway.Failover.{
  Upstream, Gateway, max_retries, retrying, after_try, timeout_of, call_with_retries,
}

module _ {ℓ} {E : Type 0} (u : Upstream E) {R : Type ℓ} (call : E → Result R × E) (start : E) where
  -- The states after so many failed tries, each with an error that may pass, and the pause after it.
  pub data After : ℕ → E → Type ℓ where
    none_yet : After 0 start
    one_more :
        {n : ℕ} {e : E} (x : AegisError)
        → After n e
        → (call e).0 ≡ err x
        → is_retryable x ≡ true
        → After (suc n) (u.sleep (retry_delay (suc n)) (call e).1)

  -- The last try: no error that may pass, unless the tries are used up.
  abbrev pub IsLast : ℕ → E → Type ℓ
  IsLast n e = (x : AegisError) → (call e).0 ≡ err x → is_retryable x ≡ true → n ≡ max_retries

  unfoldable pub Outcome : ℕ → E → Result R × E → Type ℓ
  Outcome n e out = (n ≤ max_retries) × After n e × IsLast n e × (out ≡ call e)

  retrying_from :
      (left n : ℕ) (e : E)
      → n + left ≡ max_retries
      → After n e
      → (m : ℕ) × (e' : E) × Outcome m e' (retrying u call left e)
  unfolding Outcome retrying after_try
  retrying_from zero n e h a = (n, e, (omega arith, a, λ x _ _. omega arith, refl))
  retrying_from (suc left) n e h a =
      tried (λ f b. retrying_from left (suc n) f (omega arith) b) (omega arith) (call e) refl
    where
      Here : Result R × E → Type ℓ
      Here out =
          (m : ℕ) × (e' : E) × Outcome m e'
            (after_try u (retrying u call left) (max_retries - left) out)

      Rest : Type ℓ
      Rest = (f : E) → After (suc n) f → (m : ℕ) × (e' : E) × Outcome m e' (retrying u call left f)

      tried :
          (retrying_rest : Rest) (attempt_number : max_retries - left ≡ suc n) (out : Result R × E)
          → call e ≡ out
          → Here out
      tried retrying_rest attempt_number (ok r, e1) q = (
        n,
        e,
        (
          omega arith,
          a,
          λ x bad _.
              let clash : ok r ≡ err x = sym (ap (λ (o : Result R × E). o.0) q) ∙ bad in absurd cc,
          sym q,
        ),
      )
      tried retrying_rest attempt_number (err x, e1) q =
          let failed : (call e).0 ≡ err x = ap (λ (o : Result R × E). o.0) q in
          elim (Bool-cases (is_retryable x)) [
            | inl passing ↦
                let next : E = u.sleep (retry_delay (suc n)) (call e).1 in
                let same : u.sleep (retry_delay (max_retries - left)) e1 ≡ next =
                  rw (q, attempt_number) refl in
                let more = retrying_rest next (one_more x a failed passing) in
                (more.0, more.1, rw passing (rw same more.2))
            | inr lasting ↦ (
              n,
              e,
              (
                omega arith,
                a,
                λ y bad may.
                    let both : err x ≡ err y = sym failed ∙ bad in
                    let same : x ≡ y = cc in
                    let clash : true ≡ false = sym may ∙ rw⁻¹ same lasting in absurd cc,
                rw lasting (sym q),
              ),
            )
          ]

  pub retrying_outcome : (m : ℕ) × (e : E) × Outcome m e (retrying u call max_retries start)
  retrying_outcome = retrying_from max_retries 0 start (omega arith) none_yet

-- The calls of one attempt have one timeout and one idempotency key.
abbrev pub one_call :
    {E : Type 0}
    → Upstream E
    → Gateway
    → Text
    → NormalizedRequest
    → Text
    → Credential
    → E
    → E
    → Result NormalizedResponse × E
one_call u g adapter request model credential e =
    u.chat adapter request model credential (timeout_of u g model)
      (codes "aegis-" ++ (u.new_uuid e).0)

-- The result of call_with_retries is that of one call, with one timeout and one idempotency key for
-- all of them, made after at most two failed calls with errors that may pass and a pause behind each;
-- it is an error that may pass only if both retries are used up.
pub call_with_retries_outcome :
    {E : Type 0} (u : Upstream E) (g : Gateway) (adapter : Text) (request : NormalizedRequest)
    (model : Text) (credential : Credential) (e : E)
    → (m : ℕ) × (e' : E) × Outcome u
        (one_call u g adapter request model credential e)
        (u.new_uuid e).1
        m
        e'
        (call_with_retries u g adapter request model credential e)
unfolding call_with_retries
call_with_retries_outcome u g adapter request model credential e =
    retrying_outcome u (one_call u g adapter request model credential e) (u.new_uuid e).1
