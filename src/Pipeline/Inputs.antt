-- ===== src/Pipeline/Inputs.antt =====
-- apps/gateway/src/routes/openai_compat.rs: what the pipeline looks up before it routes a request. The
-- database, SHA-256 and the parsing of a policy are arguments; a `HashSet` is a list.
pub mod Kept
use text.Mathlib.Text.{◌==◌ as str_eq}
use aegis_ai_gateway.Prelude.{
  ℕ, Bool, true, false, ◌&&◌, ◌||◌, not, String, Option, none, some, List, [], ◌∷◌, ◌++◌,
  if◌then◌else◌,
}
use aegis_ai_gateway.Error.{Result, ok, err}
use aegis_ai_gateway.KeyPool.{Keys, has_any}
use aegis_ai_gateway.Policy.{RoutingPolicy}
use aegis_ai_gateway.Store.{KvStore}
use aegis_ai_gateway.Text.{Text, codes, trim}
use aegis_ai_gateway.Types.{ModelTier, cheap, Complexity, simple}
use aegis_ai_gateway.Types.Request.{NormalizedRequest, system_text, first_user_message}
use aegis_ai_gateway.Usage.{Uuid}

unfoldable pub is_blank : Text → Bool
is_blank t = elim (trim t) [ [] ↦ true | _ ∷ _ ↦ false ]

unfoldable pub or_nothing : Option Text → Text
or_nothing none = []
or_nothing (some t) = t

-- `sha256_hex` hashes a text and prints the digest.
unfoldable pub conversation_affinity_key :
    (sha256_hex : Text → Text) → Uuid → NormalizedRequest → Option Text
unfolding is_blank or_nothing
conversation_affinity_key sha256_hex org_id r =
    let system = system_text r in
    let first_user = or_nothing (first_user_message r) in
    if is_blank system && is_blank first_user
    then none
    else some (
        codes "aegis:affinity:"
        ++ (org_id ++ b':' ∷ sha256_hex (org_id ++ b':' ∷ (system ++ b':' ∷ first_user))))

unfoldable pub plan_tier_ceiling : String → Option ModelTier
plan_tier_ceiling plan = if str_eq plan "free" then some cheap else none

unfoldable pub is_simple : Complexity → Bool
is_simple simple = true
is_simple _ = false

unfoldable pub semantic_lookup_worth_it :
    (embedder_is_local allow_remote : Bool) → Complexity → Bool
unfolding is_simple
semantic_lookup_worth_it embedder_is_local allow_remote complexity =
    embedder_is_local || (allow_remote && not (is_simple complexity))

-- The providers of the pool that have a key.
unfoldable pub with_keys : Keys → List Text
with_keys [] = []
with_keys ((name, keys) ∷ rest) =
    let others = with_keys rest in if has_any keys then name ∷ others else others

unfoldable pub some_if_any : List Text → Option (List Text)
some_if_any [] = none
some_if_any (p ∷ ps) = some (p ∷ ps)

-- The credentials of the organisation are asked for if there is a database, whose errors count as
-- none.
unfoldable pub get_configured_providers :
    {E : Type 0}
    → Option (Uuid → E → Result (List Text) × E)
    → Keys
    → Uuid
    → E
    → Option (List Text) × E
unfolding with_keys some_if_any
get_configured_providers none keys org_id e = (some_if_any (with_keys keys), e)
get_configured_providers (some list_credentials) keys org_id e =
    let (found, e1) = list_credentials org_id e in
    (
      elim found [
        | ok own ↦ some_if_any (own ++ with_keys keys)
        | err _ ↦ some_if_any (with_keys keys)
      ],
      e1,
    )

abbrev pub policy_key : Uuid → Text
policy_key org_id = codes "aegis:policy:" ++ org_id

-- 300 seconds
abbrev pub policy_ttl : ℕ
policy_ttl = 300_000

module _ {S E : Type 0} ⦃k : KvStore S⦄ (from_json : Text → RoutingPolicy) where
  -- Behind the database: a policy that was found is kept in the store.
  unfoldable pub keep_policy : Uuid → Result (Option Text) × E → S → Option RoutingPolicy × (S × E)
  keep_policy org_id (ok (some json), e) s =
      (some (from_json json), ((k.set_ex (policy_key org_id) json policy_ttl s).1, e))
  keep_policy org_id (ok none, e) s = (none, (s, e))
  keep_policy org_id (err _, e) s = (none, (s, e))

  unfoldable pub find_policy :
      Option (Uuid → E → Result (Option Text) × E)
      → Uuid
      → Result (Option Text) × S
      → E
      → Option RoutingPolicy × (S × E)
  unfolding keep_policy
  find_policy db org_id (ok (some raw), s) e = (some (from_json raw), (s, e))
  find_policy none org_id (_, s) e = (none, (s, e))
  find_policy (some find_active_policy) org_id (_, s) e =
      keep_policy org_id (find_active_policy org_id e) s

  unfoldable pub load_policy :
      Option (Uuid → E → Result (Option Text) × E) → Uuid → S → E → Option RoutingPolicy × (S × E)
  unfolding find_policy
  load_policy db org_id s e = find_policy db org_id (k.get (policy_key org_id) s) e
