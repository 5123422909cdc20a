-- ===== src/Residency.antt =====
-- apps/gateway/src/enterprise/residency.rs: which region may serve an organisation. The text of the
-- refusal is left out.
use aegis_ai_gateway.Prelude.{Bool, List, [], ◌∷◌, any, if◌then◌else◌}
use aegis_ai_gateway.Error.{Result, ok, err, forbidden}
use aegis_ai_gateway.Text.{
  Text, codes, text_eq, eq_ignore_ascii_case, to_ascii_lowercase, starts_with,
}

abbrev pub known_regions : List Text
known_regions = codes "eu-central" ∷ codes "eu-north" ∷ codes "us-east" ∷ codes "ap-southeast" ∷ []

unfoldable pub is_known_region : Text → Bool
is_known_region region = any (λ r. text_eq r region) known_regions

unfoldable pub may_process : (instance_region org_region : Text) → Bool
may_process instance_region org_region = eq_ignore_ascii_case instance_region org_region

unfoldable pub enforce : (instance_region org_region : Text) → Result (Unit {0})
unfolding may_process
enforce instance_region org_region =
    if may_process instance_region org_region
    then ok tt
    else err (forbidden "this organisation is pinned to another region")

unfoldable pub is_eu : Text → Bool
is_eu region = starts_with (codes "eu-") (to_ascii_lowercase region)
