-- ===== src/Scheduler/Claim.antt =====
-- apps/gateway/src/workers/scheduler.rs over store.rs: a slot is claimed once while its claim lives.
use aegis_ai_gateway.Prelude.{
  ℕ, ◌≤◌, ◌+◌, ◌<◌, ◌%◌, ◌^◌, ◌≡◌, refl, ap, ◌∙◌, arith, Bool, true, false, ◌&&◌, Option, none,
  some, List, [], ◌∷◌, All, any, Bool-cases, inl, inr, if◌then◌else◌,
}
use aegis_ai_gateway.Int.{ℤ, pos, pos_part, eqb_ℤ, ◌+ℤ◌, parts_disjoint}
use aegis_ai_gateway.Int.I64.{saturating_add, i64_laws, saturate, saturating_add-InI64}
use aegis_ai_gateway.Table.{lookup, lookup-insert}
use aegis_ai_gateway.Text.{Text, text_eq}
use aegis_ai_gateway.Text.Decimal.{to_string}
use aegis_ai_gateway.Text.Decimal.RoundTrip.{parse-to_string}
use aegis_ai_gateway.Text.Equality.{eq_of_text_eq}
use aegis_ai_gateway.Store.Memory.{
  MemoryStore, memory_store, Entry, incr_by, number_of, expiry_of, is_live,
}
use aegis_ai_gateway.Store.Memory.Counter.{counter, IsUp}
use aegis_ai_gateway.Scheduler.{claim, claim_key, claim_ttl, is_first}

-- The store when its clock shows `t`.
abbrev pub at : ℕ → MemoryStore → MemoryStore
at t s = record s { now = t }

-- A replica claims a slot when the clock of the store shows a time.
pub record Call : Type 0 where
  pub time : ℕ
  pub job : Text
  pub period : Text

-- The call is for the slot.
abbrev pub is_for : Text → Call → Bool
is_for slot x = text_eq (claim_key x.job x.period) slot

-- How many calls of a run are granted the slot.
unfoldable pub grants : Text → List Call → MemoryStore → ℕ
grants slot [] s = 0
grants slot (x ∷ xs) s =
    let out = claim x.job x.period (at x.time s) in
    let rest = grants slot xs out.1 in if is_for slot x && out.0 then 1 + rest else rest

-- What a claim at a time makes of the entry of its slot.
abbrev entry_after : Option Entry → ℕ → Entry
entry_after o t = record {
  value = to_string (saturating_add (number_of o t) (pos 1));
  expires_at_ms =
      if eqb_ℤ (number_of o t) (pos 0) then some ((t + claim_ttl) % 2 ^ 64) else expiry_of o;
}

pub claim_answer :
    (job period : Text) (t : ℕ) (s : MemoryStore)
    → s.poisoned ≡ false
    → (claim job period (at t s)).0
      ≡ eqb_ℤ
          (saturating_add (number_of (lookup (claim_key job period) s.values) t) (pos 1))
          (pos 1)
unfolding claim is_first incr_by
claim_answer job period t s up = rw up refl

claim_entry :
    (job period slot : Text) (t : ℕ) (s : MemoryStore)
    → s.poisoned ≡ false
    → lookup slot (claim job period (at t s)).1.values ≡ (
        if text_eq (claim_key job period) slot
        then some (entry_after (lookup (claim_key job period) s.values) t)
        else lookup slot s.values)
unfolding claim incr_by
claim_entry job period slot t s up = rw (up, lookup-insert (claim_key job period) slot) refl

claim_usable :
    (job period : Text) (t : ℕ) (s : MemoryStore)
    → s.poisoned ≡ false
    → (claim job period (at t s)).1.poisoned ≡ false
unfolding claim incr_by
claim_usable job period t s up = rw up refl

pub fresh_is_one : saturating_add (pos 0) (pos 1) ≡ pos 1
unfolding saturating_add saturate ◌+ℤ◌
fresh_is_one = refl

later_total : (a : ℤ) → 0 < pos_part a → 1 < pos_part (saturating_add a (pos 1))
unfolding saturating_add
later_total a h = omega i64_laws

later_is_not_first : (a : ℤ) → 1 < pos_part a → eqb_ℤ a (pos 1) ≡ false
later_is_not_first a h = ground (arith, parts_disjoint a)

positive_is_not_zero : (a : ℤ) → 0 < pos_part a → eqb_ℤ a (pos 0) ≡ false
positive_is_not_zero a h = ground (arith, parts_disjoint a)

-- An entry that a first claim wrote counts for the two hours behind it.
fresh_lives :
    (o : Option Entry) (t t' : ℕ)
    → number_of o t ≡ pos 0
    → t + claim_ttl < 2 ^ 64
    → t' < t + claim_ttl
    → number_of (some (entry_after o t)) t' ≡ pos 1
unfolding number_of is_live
fresh_lives o t t' h fits soon =
    rw (h, fresh_is_one) (ground (arith, parse-to_string (pos 1) (omega arith)))

-- A further claim keeps the expiry.
later_lives :
    (o : Option Entry) (t t' : ℕ)
    → 0 < pos_part (number_of o t)
    → 0 < pos_part (number_of o t')
    → 0 < pos_part (number_of (some (entry_after o t)) t')
unfolding number_of is_live expiry_of
later_lives none t t' sooner later = absurd (omega (arith, sooner))
later_lives (some e) t t' sooner later =
    let total = saturating_add (number_of (some e) t) (pos 1) in
    let live : is_live e t' ≡ true = elim (Bool-cases (is_live e t')) [
      | inl l ↦ l
      | inr l ↦ let none_left : 0 < pos_part (pos 0) = rw l at later in absurd (omega arith)
    ] in
    let grown = later_total (number_of (some e) t) sooner in
    rw (positive_is_not_zero (number_of (some e) t) sooner, live)
      (rw (parse-to_string total (saturating_add-InI64 (number_of (some e) t) (pos 1)))
        (omega (arith, grown)))

stays_zero : (o : Option Entry) (t t' : ℕ) → number_of o t ≡ pos 0 → t ≤ t' → number_of o t' ≡ pos 0
unfolding number_of is_live
stays_zero none t t' h le = refl
stays_zero (some e) t t' h le = ground arith

-- The calls of a run are made within the two hours from `begin` on.
abbrev pub IsTimely : (begin : ℕ) → List Call → Type 0
IsTimely begin l = All (λ x. (begin ≤ x.time) × (x.time < begin + claim_ttl)) l

module _ (slot : Text) (begin : ℕ) (fits : begin + 2 ^ 40 < 2 ^ 64) where
  -- While the claims of those two hours live, the slot is taken.
  abbrev IsTaken : MemoryStore → Type 0
  IsTaken s = (t : ℕ) → t < begin + claim_ttl → 0 < pos_part (number_of (lookup slot s.values) t)

  abbrev IsFree : MemoryStore → Type 0
  IsFree s = (t : ℕ) → begin ≤ t → number_of (lookup slot s.values) t ≡ pos 0

  own_entry :
      (x : Call) (s : MemoryStore)
      → s.poisoned ≡ false
      → is_for slot x ≡ true
      → (lookup slot (claim x.job x.period (at x.time s)).1.values
          ≡ some (entry_after (lookup slot s.values) x.time))
        × ((claim x.job x.period (at x.time s)).0
            ≡ eqb_ℤ (saturating_add (number_of (lookup slot s.values) x.time) (pos 1)) (pos 1))
  own_entry x s up e =
      let same : claim_key x.job x.period ≡ slot = eq_of_text_eq _ _ e in
      (
        claim_entry x.job x.period slot x.time s up
            ∙ rw e (ap (λ k. some (entry_after (lookup k s.values) x.time)) same),
        claim_answer x.job x.period x.time s up
            ∙ ap
                (λ k. eqb_ℤ (saturating_add (number_of (lookup k s.values) x.time) (pos 1)) (pos 1))
                same,
      )

  other_entry :
      (x : Call) (s : MemoryStore)
      → s.poisoned ≡ false
      → is_for slot x ≡ false
      → lookup slot (claim x.job x.period (at x.time s)).1.values ≡ lookup slot s.values
  other_entry x s up e = claim_entry x.job x.period slot x.time s up ∙ rw e refl

  -- A call leaves a taken slot taken, and is not granted it.
  later_call :
      (x : Call) (s : MemoryStore)
      → s.poisoned ≡ false
      → x.time < begin + claim_ttl
      → IsTaken s
      → IsTaken (claim x.job x.period (at x.time s)).1
        × ((is_for slot x && (claim x.job x.period (at x.time s)).0) ≡ false)
  later_call x s up soon taken = elim (Bool-cases (is_for slot x)) [
    | inl e ↦
        let own = own_entry x s up e in
        let now = taken x.time soon in
        let refusal =
          later_is_not_first (saturating_add (number_of (lookup slot s.values) x.time) (pos 1))
            (later_total (number_of (lookup slot s.values) x.time) now) in
        (
          λ t k. rw own.0 (later_lives (lookup slot s.values) x.time t now (taken t k)),
          rw e (own.1 ∙ refusal),
        )
    | inr e ↦ (λ t k. rw (other_entry x s up e) (taken t k), rw e refl)
  ]

  grants_taken :
      (l : List Call) (s : MemoryStore)
      → s.poisoned ≡ false
      → IsTimely begin l
      → IsTaken s
      → grants slot l s ≡ 0
  unfolding grants
  grants_taken [] s up timely taken = refl
  grants_taken (x ∷ l) s up timely taken =
      let next = later_call x s up timely.0.1 taken in
      rw next.1 (
        grants_taken l (claim x.job x.period (at x.time s)).1
          (claim_usable x.job x.period x.time s up) timely.1 next.0)

  -- A call for a free slot is granted it and takes it.
  first_call :
      (x : Call) (s : MemoryStore)
      → s.poisoned ≡ false
      → begin ≤ x.time
      → x.time < begin + claim_ttl
      → IsFree s
      → is_for slot x ≡ true
      → IsTaken (claim x.job x.period (at x.time s)).1
        × ((claim x.job x.period (at x.time s)).0 ≡ true)
  first_call x s up late soon free e =
      let own = own_entry x s up e in
      let none_yet = free x.time late in
      (
        λ t k. rw own.0 (
            rw (fresh_lives (lookup slot s.values) x.time t none_yet (omega arith) (omega arith))
              (omega arith)),
        own.1 ∙ rw (none_yet, fresh_is_one) refl,
      )

  grants_free :
      (l : List Call) (s : MemoryStore)
      → s.poisoned ≡ false
      → IsTimely begin l
      → IsFree s
      → grants slot l s ≡ (if any (is_for slot) l then 1 else 0)
  unfolding grants
  grants_free [] s up timely free = refl
  grants_free (x ∷ l) s up timely free =
      let later = claim_usable x.job x.period x.time s up in
      elim (Bool-cases (is_for slot x)) [
        | inl e ↦
            let next = first_call x s up timely.0.0 timely.0.1 free e in
            let refused =
              grants_taken l (claim x.job x.period (at x.time s)).1 later timely.1 next.0 in
            rw (e, next.1, refused) refl
        | inr e ↦ rw e (
            grants_free l (claim x.job x.period (at x.time s)).1 later timely.1
              (λ t k. rw (other_entry x s up e) (free t k)))
      ]

-- In a MemoryStore whose lock is usable, and while the clock does not overflow: of the calls that are
-- made within two hours, in whatever order and for whatever slots, exactly one is granted a slot that
-- nobody holds at the beginning of the two hours, if any of them is for it.
pub claim_once :
    (slot : Text) (l : List Call) (s : MemoryStore)
    → IsUp s
    → counter slot s ≡ pos 0
    → IsTimely s.now l
    → grants slot l s ≡ (if any (is_for slot) l then 1 else 0)
unfolding counter
claim_once slot l s up none_yet timely =
    grants_free slot s.now up.clock_fits l s up.usable timely
      (λ t k. stays_zero (lookup slot s.values) s.now t none_yet k)
