-- ===== src/Outbound.antt =====
-- internal/security/outbound.go: which URLs and addresses the server may call. net/url, the parser
-- of addresses, the resolver and strings.ToLower are parameters.
pub mod Policy
use tao_core_go.Prelude.{
  ℕ, zero, suc, ◌+◌, ◌-◌, ◌*◌, ◌/◌, ◌^◌, Text, Bool, true, false, not, ◌&&◌, ◌||◌, Option, none,
  some, List, [], ◌∷◌, map, eqb, any, find, filter, codes, ◌==◌, text_eq_instance, if◌then◌else◌,
}
use tao_core_go.Text.{trim_space, is_empty, has_prefix}

-- A netip address: 32 or 128 bits
pub data Address : Type 0 where
  v4 v6 : ℕ → Address

pub record Url : Type 0 where
  pub scheme : Text
  -- the host with its port, as it is written
  pub host : Text
  pub hostname : Text
  pub has_user : Bool
  pub path : Text
  pub fragment : Text

pub record Net : Type 0 where
  pub parse_url : Text → Option Url
  pub parse_ip : Text → Option Address
  pub lookup : Text → Option (List Address)
  pub to_lower : Text → Text

pub record OutboundPolicy : Type 0 where
  pub allowed_hosts : List Text

abbrev drop_dot : Text → Text
drop_dot [] = []
drop_dot (c ∷ []) = if eqb c b'.' then [] else c ∷ []
drop_dot (c ∷ d ∷ s) = c ∷ drop_dot (d ∷ s)

-- strings.HasSuffix
unfoldable pub has_suffix : Text → Text → Bool
has_suffix [] t = is_empty t
has_suffix (c ∷ s) t = (c ∷ s) == t || has_suffix s t

-- strings.ToLower(strings.TrimSuffix(host, "."))
unfoldable pub normal_host : Net → Text → Text
normal_host net host = net.to_lower (drop_dot host)

-- `NewOutboundPolicy`
unfoldable pub new_outbound_policy : Net → List Text → Option OutboundPolicy
unfolding normal_host trim_space
new_outbound_policy net allowed_hosts =
    elim (filter (λ h. not (is_empty h))
      (map (λ h. normal_host net (trim_space h)) allowed_hosts)) [
        | [] ↦ none
        | h ∷ hs ↦ some (record { allowed_hosts = h ∷ hs })
      ]

-- An entry "*.suffix" allows the hosts below the suffix, and any other entry itself.
unfoldable pub entry_allows : Text → Text → Bool
unfolding has_suffix has_prefix
entry_allows host [] = host == []
entry_allows host (c ∷ []) = host == (c ∷ [])
entry_allows host (c ∷ d ∷ rest) =
    if eqb c b'*' && eqb d b'.'
    then has_suffix host (d ∷ rest) && not (host == rest)
    else host == (c ∷ d ∷ rest)

-- `hostAllowed`
unfoldable pub host_allowed : Net → OutboundPolicy → Text → Bool
unfolding normal_host entry_allows
host_allowed net policy host = any (entry_allows (normal_host net host)) policy.allowed_hosts

-- netip.Prefix.Contains
abbrev pub contains_v4 : ℕ → ℕ → ℕ → Bool
contains_v4 base bits a = eqb (a / 2 ^ (32 - bits)) (base / 2 ^ (32 - bits))

abbrev pub contains_v6 : ℕ → ℕ → ℕ → Bool
contains_v6 base bits a = eqb (a / 2 ^ (128 - bits)) (base / 2 ^ (128 - bits))

abbrev ip4 : ℕ → ℕ → ℕ → ℕ → ℕ
ip4 a b c d = a * 16_777_216 + b * 65_536 + c * 256 + d

-- The first three groups of sixteen bits of an address
abbrev ip6 : ℕ → ℕ → ℕ → ℕ
ip6 a b c = a * 2 ^ 112 + b * 2 ^ 96 + c * 2 ^ 80

-- `specialUsePrefixes`
abbrev pub special_v4 : List (ℕ × ℕ)
special_v4 =
    (ip4 0 0 0 0, 8)
    ∷ (ip4 10 0 0 0, 8)
    ∷ (ip4 100 64 0 0, 10)
    ∷ (ip4 127 0 0 0, 8)
    ∷ (ip4 169 254 0 0, 16)
    ∷ (ip4 172 16 0 0, 12)
    ∷ (ip4 192 0 0 0, 24)
    ∷ (ip4 192 0 2 0, 24)
    ∷ (ip4 192 168 0 0, 16)
    ∷ (ip4 198 18 0 0, 15)
    ∷ (ip4 198 51 100 0, 24)
    ∷ (ip4 203 0 113 0, 24)
    ∷ (ip4 224 0 0 0, 4)
    ∷ (ip4 240 0 0 0, 4)
    ∷ []

abbrev pub special_v6 : List (ℕ × ℕ)
special_v6 =
    (0, 128)
    ∷ (1, 128)
    ∷ (ip6 0x64 0xff9b 1, 48)
    ∷ (ip6 0x100 0 0, 64)
    ∷ (ip6 0x2001 0xdb8 0, 32)
    ∷ (ip6 0xfc00 0 0, 7)
    ∷ (ip6 0xfe80 0 0, 10)
    ∷ (ip6 0xff00 0 0, 8)
    ∷ []

-- netip.Addr.Unmap
abbrev unmap : Address → Address
unmap (v4 a) = v4 a
unmap (v6 a) = if eqb (a / 2 ^ 32) 0xffff then v4 (a - 0xffff * 2 ^ 32) else v6 a

unfoldable pub is_special : Address → Bool
is_special (v4 a) = any (λ p. contains_v4 p.0 p.1 a) special_v4
is_special (v6 a) = any (λ p. contains_v6 p.0 p.1 a) special_v6

-- netip.Addr.IsGlobalUnicast: not unspecified, broadcast, loopback, multicast or link-local
unfoldable pub is_global_unicast : Address → Bool
is_global_unicast (v4 a) = not (
    eqb a 0
    || eqb a 4_294_967_295
    || contains_v4 (ip4 127 0 0 0) 8 a
    || contains_v4 (ip4 224 0 0 0) 4 a
    || contains_v4 (ip4 169 254 0 0) 16 a)
is_global_unicast (v6 a) =
    not
      (eqb a 0 || eqb a 1 || contains_v6 (ip6 0xff00 0 0) 8 a || contains_v6 (ip6 0xfe80 0 0) 10 a)

-- `safePublicIP`
unfoldable pub safe_public_ip : Address → Bool
unfolding is_special is_global_unicast
safe_public_ip ip = not (is_special (unmap ip)) && is_global_unicast (unmap ip)

-- The host is an address that is not a public one.
unfoldable pub unsafe_literal : Net → Text → Bool
unfolding safe_public_ip
unsafe_literal net hostname = elim (net.parse_ip hostname) [
  | none ↦ false
  | some ip ↦ not (safe_public_ip ip)
]

unfoldable pub is_local_name : Text → Bool
unfolding has_suffix
is_local_name hostname =
    hostname == codes "localhost"
    || has_suffix hostname (codes ".localhost")
    || has_suffix hostname (codes ".local")

unfoldable pub check_url : Net → OutboundPolicy → Url → Option Url
unfolding normal_host is_local_name host_allowed unsafe_literal
check_url net policy parsed =
    let hostname = normal_host net parsed.hostname in
    if not (parsed.scheme == codes "https")
      || is_empty parsed.hostname
      || parsed.has_user
      || is_local_name hostname
      || not (host_allowed net policy hostname)
      || unsafe_literal net hostname
    then none
    else some (record parsed { fragment = [] })

-- `ValidateURL`
unfoldable pub validate_url : Net → OutboundPolicy → Text → Option Url
unfolding check_url trim_space
validate_url net policy raw_url = elim (net.parse_url (trim_space raw_url)) [
  | none ↦ none
  | some parsed ↦ check_url net policy parsed
]

-- `resolve`
unfoldable pub resolve : Net → Text → Option (List Address)
resolve net host = elim (net.parse_ip host) [ none ↦ net.lookup host | some ip ↦ some (ip ∷ []) ]

-- `DialContext` of the transport: the address that is dialled
unfoldable pub dial_address : Net → OutboundPolicy → Text → Option Address
unfolding host_allowed resolve safe_public_ip
dial_address net policy host =
    if host_allowed net policy host
    then elim (resolve net host) [ none ↦ none | some ips ↦ find safe_public_ip ips ]
    else none
