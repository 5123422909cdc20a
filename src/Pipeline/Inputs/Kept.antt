-- ===== src/Pipeline/Inputs/Kept.antt =====
-- apps/gateway/src/routes/openai_compat.rs: a routing policy that the database gave is kept.
use aegis_ai_gateway.Prelude.{
  ℕ, ◌+◌, ◌^◌, ◌%◌, ◌<◌, ◌≡◌, refl, ◌∙◌, arith, ap, false, true, Option, none, some, ltb,
}
use aegis_ai_gateway.Error.{Result, ok}
use aegis_ai_gateway.Policy.{RoutingPolicy}
use aegis_ai_gateway.Store.Memory.{MemoryStore, memory_store, get, set_ex}
use aegis_ai_gateway.Store.Memory.Values.{at_time, get_written}
use aegis_ai_gateway.Text.{Text}
use aegis_ai_gateway.Usage.{Uuid}
use aegis_ai_gateway.Pipeline.Inputs.{policy_key, policy_ttl, keep_policy, find_policy, load_policy}

module _ {E : Type 0} (from_json : Text → RoutingPolicy) where
  found_in_store :
      (db : Option (Uuid → E → Result (Option Text) × E)) (org_id : Uuid) (raw : Text)
      (found : Result (Option Text)) (s : MemoryStore) (e : E)
      → found ≡ ok (some raw)
      → find_policy from_json db org_id (found, s) e ≡ (some (from_json raw), (s, e))
  unfolding find_policy
  found_in_store db org_id raw found s e h = rw h refl

  kept :
      (find : Uuid → E → Result (Option Text) × E) (org_id : Uuid) (json : Text)
      (found : Result (Option Text)) (s : MemoryStore) (e : E)
      → found ≡ ok none
      → (find org_id e).0 ≡ ok (some json)
      → (find_policy from_json (some find) org_id (found, s) e).1.0
        ≡ (set_ex (policy_key org_id) json policy_ttl s).1
  unfolding find_policy keep_policy
  kept find org_id json found s e h k = rw (h, k) refl

  -- In a store that is up, whose clock does not overflow and that has no policy of the organisation:
  -- once the database gave one, the next five minutes' requests get it, whatever the database says.
  pub load_policy_keeps :
      (find : Uuid → E → Result (Option Text) × E)
      (later : Option (Uuid → E → Result (Option Text) × E)) (org_id : Uuid) (json : Text)
      (s : MemoryStore) (e e' : E) (t : ℕ)
      → s.poisoned ≡ false
      → get (policy_key org_id) s ≡ (ok none, s)
      → (find org_id e).0 ≡ ok (some json)
      → s.now + policy_ttl < 2 ^ 64
      → t < s.now + policy_ttl
      → (load_policy from_json later org_id
          (at_time t (load_policy from_json (some find) org_id s e).1.0)
          e').0
        ≡ some (from_json json)
  unfolding load_policy
  load_policy_keeps find later org_id json s e e' t up empty found fits soon =
      let key = policy_key org_id in
      let s1 = (load_policy from_json (some find) org_id s e).1.0 in
      let left : s1 ≡ (set_ex key json policy_ttl s).1 =
        kept find org_id json (get key s).0 (get key s).1 e
          (ap (λ (o : Result (Option Text) × MemoryStore). o.0) empty) found
        ∙ ap (λ (o : Result (Option Text) × MemoryStore). (set_ex key json policy_ttl o.1).1)
            empty in
      let live : ltb t ((s.now + policy_ttl) % 2 ^ 64) ≡ true = ground (arith, fits, soon) in
      let read : (get key (at_time t s1)).0 ≡ ok (some json) =
        rw left (get_written key json policy_ttl s t up ∙ rw live refl) in
      ap (λ (o : Option RoutingPolicy × (MemoryStore × E)). o.0)
        (found_in_store later org_id json (get key (at_time t s1)).0 (get key (at_time t s1)).1 e'
          read)
