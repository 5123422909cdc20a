-- ===== src/SsrfGuard/Allowed.antt =====
-- apps/gateway/src/middleware/ssrf_guard.rs: a URL that passes leads to public addresses only.
use aegis_ai_gateway.Prelude.{
  ℕ, ◌/◌, ◌==◌, ◌≡◌, ◌≢◌, ◌<◌, ◌+◌, ◌&&◌, ◌⊎◌, refl, sym, ◌∙◌, arith, Bool, true, false, ◌||◌,
  Option, subst, none, some, List, [], ◌∷◌, any, All, Bool-cases, Option-cases, inl, inr,
}
use aegis_ai_gateway.Error.{AegisError, bad_request, ok, err}
use aegis_ai_gateway.SsrfGuard.{
  Ipv4Addr, Ipv6Addr, IpAddr, v4, v6, is_disallowed, is_disallowed_v4, is_disallowed_v6,
  to_ipv4_mapped, ParsedUrl, check_addrs, check_host, disallowed, port_or_443, validate_base_url,
  is_loopback_v4, is_private, is_link_local, is_unspecified_v4, is_broadcast, is_documentation,
  front_is_zero,
}
use aegis_ai_gateway.Text.{Text, codes, text_eq, eq_ignore_ascii_case}

-- Outside the internal networks, written as bounds on the octets: not loopback, private, link-local
-- or shared between carriers, nor the unspecified address, the broadcast address or one of the
-- three networks for documentation.
abbrev pub IsPublicV4 : Ipv4Addr → Type 0
IsPublicV4 ip =
    (ip.a ≢ 127)
    × (ip.a ≢ 10)
    × (ip.a ≡ 172 → (ip.b < 16) ⊎ (31 < ip.b))
    × (ip.a ≡ 192 → ip.b ≢ 168)
    × (ip.a ≡ 169 → ip.b ≢ 254)
    × (ip.a ≡ 100 → (ip.b < 64) ⊎ (127 < ip.b))
    × (0 < ip.a + ip.b + ip.c + ip.d)
    × (ip.a ≡ 255 → ip.b ≡ 255 → ip.c ≡ 255 → ip.d ≢ 255)
    × (ip.a ≡ 192 → ip.b ≡ 0 → ip.c ≢ 2)
    × (ip.a ≡ 198 → ip.b ≡ 51 → ip.c ≢ 100)
    × (ip.a ≡ 203 → ip.b ≡ 0 → ip.c ≢ 113)

allowed_v4 : (ip : Ipv4Addr) → is_disallowed_v4 ip ≡ false → IsPublicV4 ip
unfolding is_disallowed_v4 is_loopback_v4 is_private is_link_local is_unspecified_v4 is_broadcast
    is_documentation
allowed_v4 ip h = ground arith

-- The segments before the last, added up.
abbrev pub upper : Ipv6Addr → ℕ
upper ip = ip.s0 + ip.s1 + ip.s2 + ip.s3 + ip.s4 + ip.s5 + ip.s6

-- An address that may be reached: IPv4 outside the internal networks; IPv6 neither link-local nor
-- unique local, neither `::` nor `::1`, and no mapped IPv4 address inside one of those networks.
pub IsPublic : IpAddr → Type 0
IsPublic (v4 ip) = IsPublicV4 ip
IsPublic (v6 ip) =
    ((ip.s0 < 0xfe80) ⊎ (0xfebf < ip.s0))
    × ((ip.s0 < 0xfc00) ⊎ (0xfdff < ip.s0))
    × (0 < upper ip + ip.s7)
    × (upper ip ≡ 0 → ip.s7 ≢ 1)
    × ((mapped : Ipv4Addr) → to_ipv4_mapped ip ≡ some mapped → IsPublicV4 mapped)

or_false : {a b : Bool} → a || b ≡ false → (a ≡ false) × (b ≡ false)
or_false {a = false} h = (refl, h)
or_false {a = true} h = absurd cc

outside_link_local : (n : ℕ) → (n / 64 == 0xfe80 / 64) ≡ false → (n < 0xfe80) ⊎ (0xfebf < n)
outside_link_local n h = ground arith

outside_unique_local : (n : ℕ) → (n / 512 == 0xfc00 / 512) ≡ false → (n < 0xfc00) ⊎ (0xfdff < n)
outside_unique_local n h = ground arith

not_unspecified :
    (ip : Ipv6Addr)
    → (front_is_zero ip && ip.s5 == 0 && ip.s6 == 0 && ip.s7 == 0) ≡ false
    → 0 < upper ip + ip.s7
not_unspecified ip h = ground arith

not_loopback :
    (ip : Ipv6Addr)
    → (front_is_zero ip && ip.s5 == 0 && ip.s6 == 0 && ip.s7 == 1) ≡ false
    → upper ip ≡ 0
    → ip.s7 ≢ 1
not_loopback ip h no_upper = ground arith

allowed_mapped :
    (o : Option Ipv4Addr)
    → (elim o [ none ↦ false | some mapped ↦ is_disallowed_v4 mapped ]) ≡ false
    → (mapped : Ipv4Addr) → o ≡ some mapped
    → IsPublicV4 mapped
allowed_mapped none h mapped e = absurd cc
allowed_mapped (some ip) h mapped e =
    let same : ip ≡ mapped = cc in subst IsPublicV4 same (allowed_v4 ip h)

allowed_v6 : (ip : Ipv6Addr) → is_disallowed_v6 ip ≡ false → IsPublic (v6 ip)
unfolding is_disallowed_v6 IsPublic
allowed_v6 ip h =
    let (h4, mapped) = or_false h in
    let (h3, unique) = or_false h4 in
    let (h2, link) = or_false h3 in
    let (loopback, unspecified) = or_false h2 in
    (
      outside_link_local ip.s0 link,
      outside_unique_local ip.s0 unique,
      not_unspecified ip unspecified,
      not_loopback ip loopback,
      allowed_mapped (to_ipv4_mapped ip) mapped,
    )

allowed : (ip : IpAddr) → is_disallowed ip ≡ false → IsPublic ip
unfolding is_disallowed IsPublic
allowed (v4 ip) h = allowed_v4 ip h
allowed (v6 ip) h = allowed_v6 ip h

All-allowed : (ips : List IpAddr) → any is_disallowed ips ≡ false → All IsPublic ips
All-allowed [] h = tt
All-allowed (ip ∷ ips) h =
    let (here, there) = or_false h in (allowed ip here, All-allowed ips there)

check_addrs_ok : (ips : List IpAddr) → check_addrs ips ≡ ok tt → (ips ≢ []) × All IsPublic ips
unfolding check_addrs
check_addrs_ok [] h = absurd cc
check_addrs_ok (ip ∷ ips) h = elim (Bool-cases (any is_disallowed (ip ∷ ips))) [
  | inl e ↦ let q : err disallowed ≡ ok tt = rw e at h in absurd cc
  | inr e ↦ (cc, All-allowed (ip ∷ ips) e)
]

ok_never : (e : AegisError) → ok (tt {0}) ≡ err e → ⊥
ok_never e h = cc

module _ (parse_url : Text → Option ParsedUrl) (lookup_host : Text → ℕ → Option (List IpAddr)) where
  -- A URL that parses to an HTTP address whose host, not the machine itself, the lookup finds at
  -- public addresses only, and at one at least.
  pub LeadsOutside : Text → Type 0
  LeadsOutside url =
      (u : ParsedUrl) × (host : Text) × (ips : List IpAddr) × (parse_url url ≡ some u)
      × ((text_eq u.scheme (codes "http") || text_eq u.scheme (codes "https")) ≡ true)
      × (u.host ≡ some host)
      × (eq_ignore_ascii_case host (codes "localhost") ≡ false)
      × (lookup_host host (port_or_443 u) ≡ some ips)
      × (ips ≢ [])
      × All IsPublic ips

  LeadsTo : ParsedUrl → Type 0
  LeadsTo u =
      (host : Text) × (ips : List IpAddr) × (u.host ≡ some host)
      × (eq_ignore_ascii_case host (codes "localhost") ≡ false)
      × (lookup_host host (port_or_443 u) ≡ some ips)
      × (ips ≢ [])
      × All IsPublic ips

  check_host_lem : (u : ParsedUrl) → check_host lookup_host u ≡ ok tt → LeadsTo u
  unfolding check_host LeadsTo
  check_host_lem u h = elim (Option-cases u.host) [
    | inl e ↦
        absurd (ok_never (bad_request "base_url must include a host") (sym h ∙ rw (check_host, e)))
    | inr (host, e) ↦ elim (Bool-cases (eq_ignore_ascii_case host (codes "localhost"))) [
      | inl near ↦ absurd (ok_never disallowed (sym h ∙ rw (check_host, e, near)))
      | inr far ↦ elim (Option-cases (lookup_host host (port_or_443 u))) [
        | inl none_found ↦ absurd (
            ok_never (bad_request "base_url host could not be resolved")
              (sym h ∙ rw (check_host, e, far, none_found)))
        | inr (ips, found) ↦
            let fine : check_addrs ips ≡ ok tt = rw (check_host, e, far, found) at h in
            let (some_found, outside) = check_addrs_ok ips fine in
            (host, ips, e, far, found, some_found, outside)
      ]
    ]
  ]

  -- A base URL that validate_base_url accepts is an HTTP URL with a host other than localhost,
  -- the lookup finds at least one address for the host, and each of them is public: an IPv4
  -- address that is not loopback, private, link-local, shared between carriers, unspecified,
  -- broadcast or for documentation; or an IPv6 address that is not loopback, unspecified, link-
  -- local or unique local and maps no such IPv4 address.
  pub validate_base_url-LeadsOutside :
      (url : Text) → validate_base_url parse_url lookup_host url ≡ ok tt → LeadsOutside url
  unfolding validate_base_url LeadsOutside LeadsTo
  validate_base_url-LeadsOutside url h = elim (Option-cases (parse_url url)) [
    | inl e ↦
        absurd
          (ok_never (bad_request "base_url is not a valid URL") (sym h ∙ rw (validate_base_url, e)))
    | inr (u, e) ↦
        elim (Bool-cases (text_eq u.scheme (codes "http") || text_eq u.scheme (codes "https"))) [
          | inl web ↦
              let fine : check_host lookup_host u ≡ ok tt = rw (validate_base_url, e, web) at h in
              let w = check_host_lem u fine in (u, w.0, w.1, e, web, w.2, w.3, w.4, w.5, w.6)
          | inr other ↦ absurd (
              ok_never (bad_request "base_url must be http or https")
                (sym h ∙ rw (validate_base_url, e, other)))
        ]
  ]
