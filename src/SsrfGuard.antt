-- ===== src/SsrfGuard.antt =====
-- apps/gateway/src/middleware/ssrf_guard.rs: which base URLs a customer may set. The parsing of URLs
-- (the crate url) and the lookup of hosts are arguments; the messages leave their details out.
pub mod Allowed
mod Tests
use aegis_ai_gateway.Prelude.{
  ℕ, ◌/◌, ◌%◌, Bool, true, false, not, ◌&&◌, ◌||◌, Option, none, some, List, [], ◌∷◌, any, leb, ltb,
  ◌==◌, if◌then◌else◌,
}
use aegis_ai_gateway.Error.{AegisError, bad_request, Result, ok, err}
use aegis_ai_gateway.Text.{Text, codes, text_eq, eq_ignore_ascii_case}

-- Four octets.
pub record Ipv4Addr : Type 0 where
  pub a : ℕ
  pub b : ℕ
  pub c : ℕ
  pub d : ℕ

-- Eight segments of 16 bits.
pub record Ipv6Addr : Type 0 where
  pub s0 : ℕ
  pub s1 : ℕ
  pub s2 : ℕ
  pub s3 : ℕ
  pub s4 : ℕ
  pub s5 : ℕ
  pub s6 : ℕ
  pub s7 : ℕ

pub data IpAddr : Type 0 where
  v4 : Ipv4Addr → IpAddr
  v6 : Ipv6Addr → IpAddr

-- The tests of the standard library on IPv4 addresses.
unfoldable pub is_loopback_v4 : Ipv4Addr → Bool
is_loopback_v4 ip = ip.a == 127

unfoldable pub is_private : Ipv4Addr → Bool
is_private ip =
    ip.a == 10 || (ip.a == 172 && leb 16 ip.b && leb ip.b 31) || (ip.a == 192 && ip.b == 168)

unfoldable pub is_link_local : Ipv4Addr → Bool
is_link_local ip = ip.a == 169 && ip.b == 254

unfoldable pub is_unspecified_v4 : Ipv4Addr → Bool
is_unspecified_v4 ip = ip.a == 0 && ip.b == 0 && ip.c == 0 && ip.d == 0

unfoldable pub is_broadcast : Ipv4Addr → Bool
is_broadcast ip = ip.a == 255 && ip.b == 255 && ip.c == 255 && ip.d == 255

unfoldable pub is_documentation : Ipv4Addr → Bool
is_documentation ip =
    (ip.a == 192 && ip.b == 0 && ip.c == 2)
    || (ip.a == 198 && ip.b == 51 && ip.c == 100)
    || (ip.a == 203 && ip.b == 0 && ip.c == 113)

unfoldable pub is_disallowed_v4 : Ipv4Addr → Bool
unfolding is_loopback_v4 is_private is_link_local is_unspecified_v4 is_broadcast is_documentation
is_disallowed_v4 ip =
    is_loopback_v4 ip
    || is_private ip
    || is_link_local ip
    || is_unspecified_v4 ip
    || is_broadcast ip
    || is_documentation ip
    || (ip.a == 100 && leb 64 ip.b && leb ip.b 127)

abbrev pub front_is_zero : Ipv6Addr → Bool
front_is_zero ip = ip.s0 == 0 && ip.s1 == 0 && ip.s2 == 0 && ip.s3 == 0 && ip.s4 == 0

-- `to_ipv4_mapped`
unfoldable pub to_ipv4_mapped : Ipv6Addr → Option Ipv4Addr
to_ipv4_mapped ip =
    if front_is_zero ip && ip.s5 == 0xffff
    then some record { a = ip.s6 / 256; b = ip.s6 % 256; c = ip.s7 / 256; d = ip.s7 % 256 }
    else none

-- A mask of the high bits is a division.
unfoldable pub is_disallowed_v6 : Ipv6Addr → Bool
unfolding to_ipv4_mapped is_disallowed_v4
is_disallowed_v6 ip =
    (front_is_zero ip && ip.s5 == 0 && ip.s6 == 0 && ip.s7 == 1)
    || (front_is_zero ip && ip.s5 == 0 && ip.s6 == 0 && ip.s7 == 0)
    || ip.s0 / 64 == 0xfe80 / 64
    || ip.s0 / 512 == 0xfc00 / 512
    || (elim (to_ipv4_mapped ip) [ none ↦ false | some mapped ↦ is_disallowed_v4 mapped ])

unfoldable pub is_disallowed : IpAddr → Bool
unfolding is_disallowed_v4 is_disallowed_v6
is_disallowed (v4 ip) = is_disallowed_v4 ip
is_disallowed (v6 ip) = is_disallowed_v6 ip

pub record ParsedUrl : Type 0 where
  pub scheme : Text
  pub host : Option Text
  pub port : Option ℕ

abbrev pub disallowed : AegisError
disallowed = bad_request "base_url host resolves to an internal or link-local address"

unfoldable pub check_addrs : List IpAddr → Result (Unit {0})
unfolding is_disallowed
check_addrs [] = err (bad_request "base_url host did not resolve to any address")
check_addrs (ip ∷ ips) = if any is_disallowed (ip ∷ ips) then err disallowed else ok tt

unfoldable pub port_or_443 : ParsedUrl → ℕ
port_or_443 u = elim u.port [ none ↦ 443 | some p ↦ p ]

unfoldable pub check_host :
    (lookup_host : Text → ℕ → Option (List IpAddr)) → ParsedUrl → Result (Unit {0})
unfolding check_addrs port_or_443
check_host lookup_host u = elim u.host [
  | none ↦ err (bad_request "base_url must include a host")
  | some host ↦
      if eq_ignore_ascii_case host (codes "localhost")
      then err disallowed
      else elim (lookup_host host (port_or_443 u)) [
        | none ↦ err (bad_request "base_url host could not be resolved")
        | some ips ↦ check_addrs ips
      ]
]

unfoldable pub validate_base_url :
    (parse_url : Text → Option ParsedUrl)
    → (lookup_host : Text → ℕ → Option (List IpAddr)) → Text
    → Result (Unit {0})
unfolding check_host
validate_base_url parse_url lookup_host url = elim (parse_url url) [
  | none ↦ err (bad_request "base_url is not a valid URL")
  | some u ↦
      if text_eq u.scheme (codes "http") || text_eq u.scheme (codes "https")
      then check_host lookup_host u
      else err (bad_request "base_url must be http or https")
]
