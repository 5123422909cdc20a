-- ===== src/Policy/Rules.antt =====
-- apps/gateway/src/engine/policy.rs: when a rule holds, and which rule decides.
use aegis_ai_gateway.Prelude.{ℕ, ◌≡◌, ◌≤◌, Bool, true, some, List, All}
use aegis_ai_gateway.Policy.{Condition, Rule, PolicyContext, matches_pattern}
use aegis_ai_gateway.Text.{Text, text_eq, to_ascii_lowercase, eq_ignore_ascii_case}
use aegis_ai_gateway.Types.{Complexity, complexity_as_str}

-- Each field of a condition that is set asks something of its own of the request: its complexity has
-- the name, its model fits the pattern, its team, its person and its mode are there and have the
-- names, it needs tools or not, and it is estimated at the threshold or above.
abbrev pub Holds : Condition → PolicyContext → Type 0
Holds c x =
    ((e : Text)
      → c.complexity ≡ some e
      → (a : Complexity) × (x.complexity ≡ some a)
        × (text_eq (complexity_as_str a) (to_ascii_lowercase e) ≡ true))
    × ((e : Text) → c.model_requested ≡ some e → matches_pattern e x.model_requested ≡ true)
    × ((e : Text)
        → c.team ≡ some e
        → (a : Text) × (x.team ≡ some a) × (eq_ignore_ascii_case a e ≡ true))
    × ((e : Text)
        → c.user ≡ some e
        → (a : Text) × (x.user ≡ some a) × (eq_ignore_ascii_case a e ≡ true))
    × ((e : Text)
        → c.routing_mode ≡ some e
        → (a : Text) × (x.routing_mode ≡ some a) × (eq_ignore_ascii_case a e ≡ true))
    × ((e : Bool) → c.requires_tools ≡ some e → x.requires_tools ≡ e)
    × ((e : ℕ) → c.min_input_tokens ≡ some e → e ≤ x.estimated_input_tokens)

-- The conditions before a place do not hold, and the condition there does.
abbrev pub IsFirst : PolicyContext → List Rule → Rule → Type 0
IsFirst x before r = All (λ p. ¬ Holds p.condition x) before × Holds r.condition x
