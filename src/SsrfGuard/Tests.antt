-- ===== src/SsrfGuard/Tests.antt =====
-- apps/gateway/src/middleware/ssrf_guard.rs: the guard on concrete addresses and URLs.
use aegis_ai_gateway.Prelude.{ℕ, ◌≡◌, refl, true, false, Option, none, some, List, [], ◌∷◌}
use aegis_ai_gateway.Error.{err}
use aegis_ai_gateway.SsrfGuard.{
  IpAddr, v4, v6, is_disallowed, ParsedUrl, validate_base_url, disallowed,
}
use aegis_ai_gateway.SsrfGuard.Allowed.{LeadsOutside, validate_base_url-LeadsOutside}
use aegis_ai_gateway.Text.{Text, codes, eq_ignore_ascii_case, text_eq}

abbrev public_address : IpAddr
public_address = v4 record { a = 104; b = 18; c = 7; d = 192 }

abbrev metadata_address : IpAddr
metadata_address = v4 record { a = 169; b = 254; c = 169; d = 254 }

-- ::ffff:169.254.169.254
abbrev mapped_metadata : IpAddr
mapped_metadata =
    v6 record { s0 = 0; s1 = 0; s2 = 0; s3 = 0; s4 = 0; s5 = 0xffff; s6 = 0xa9fe; s7 = 0xa9fe }

metadata_is_disallowed : is_disallowed metadata_address ≡ true
unfolding is_disallowed
metadata_is_disallowed = refl

mapped_metadata-is_disallowed : is_disallowed mapped_metadata ≡ true
unfolding is_disallowed
mapped_metadata-is_disallowed = refl

public_is_allowed : is_disallowed public_address ≡ false
unfolding is_disallowed
public_is_allowed = refl

abbrev one_url : Text → Option ParsedUrl
one_url t =
    some record { scheme = codes "https"; host = some (codes "api.openai.com"); port = none }

abbrev to_public : Text → ℕ → Option (List IpAddr)
to_public host port = some (public_address ∷ [])

abbrev to_both : Text → ℕ → Option (List IpAddr)
to_both host port = some (public_address ∷ metadata_address ∷ [])

one_internal_address_is_enough :
    validate_base_url one_url to_both (codes "https://api.openai.com") ≡ err disallowed
unfolding validate_base_url text_eq eq_ignore_ascii_case
one_internal_address_is_enough = refl

validate_base_url-LeadsOutside_example :
    LeadsOutside one_url to_public (codes "https://api.openai.com")
unfolding validate_base_url text_eq eq_ignore_ascii_case
validate_base_url-LeadsOutside_example =
    validate_base_url-LeadsOutside one_url to_public (codes "https://api.openai.com") refl
