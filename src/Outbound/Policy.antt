-- ===== src/Outbound/Policy.antt =====
-- No call leaves to a host off the list or to an address that is not public.
mod Tests
use tao_core_go.Prelude.{
  Text, Bool, true, false, not, ◌||◌, ◌&&◌, Option, none, some, List, [], ◌≡◌, refl, inl, inr,
  arith, codes, ◌==◌, text_eq_instance, text_eq_iff, if◌then◌else◌, find, find-test, Bool-cases,
  Option-cases,
}
use tao_core_go.Prelude.Rows.{In, In-find}
use tao_core_go.Text.{trim_space, is_empty}
use tao_core_go.Outbound.{
  Address, Url, Net, OutboundPolicy, normal_host, host_allowed, safe_public_ip, unsafe_literal,
  is_local_name, check_url, validate_url, resolve, dial_address,
}

passed_is_same :
    (refused : Bool) (parsed url : Url)
    → (if refused then none else some parsed) ≡ some url
    → url ≡ parsed
passed_is_same true parsed url h = cc
passed_is_same false parsed url h = cc

module _ (net : Net) (policy : OutboundPolicy) where
  -- What holds of a connection.
  pub record IsDialled (host : Text) (ip : Address) : Type 0 where
    pub allowed : host_allowed net policy host ≡ true
    pub addresses : List Address
    pub resolved : resolve net host ≡ some addresses
    pub one_of_them : In ip addresses
    pub public : safe_public_ip ip ≡ true

  -- An address is dialled only for a host that the list allows, among the addresses that the host
  -- resolves to, and only if it is a public one.
  pub dial_address-IsDialled :
      (host : Text) (ip : Address) → dial_address net policy host ≡ some ip → IsDialled host ip
  unfolding dial_address
  dial_address-IsDialled host ip h = elim (Bool-cases (host_allowed net policy host)) [
    | inr other ↦ absurd (ground arith)
    | inl allowed ↦ elim (Option-cases (resolve net host)) [
      | inl failed ↦ absurd (ground arith)
      | inr (ips, resolved) ↦
          let found : find safe_public_ip ips ≡ some ip = rw (allowed, resolved) at h in
          record {
            allowed = allowed;
            addresses = ips;
            resolved = resolved;
            one_of_them = In-find safe_public_ip ips ip found;
            public = find-test safe_public_ip ips ip found;
          }
    ]
  ]

  -- What holds of a URL that is let through.
  pub record IsAllowed (raw_url : Text) (url : Url) : Type 0 where
    pub parsed : Url
    pub read : net.parse_url (trim_space raw_url) ≡ some parsed
    pub same : url ≡ record parsed { fragment = [] }
    pub https : (parsed.scheme == codes "https") ≡ true
    pub anonymous : parsed.has_user ≡ false
    pub not_local : is_local_name (normal_host net parsed.hostname) ≡ false
    pub listed : host_allowed net policy (normal_host net parsed.hostname) ≡ true
    pub public : unsafe_literal net (normal_host net parsed.hostname) ≡ false

  -- A URL is let through only if it parses as an HTTPS URL without user information whose host has
  -- no local name, is on the list, and is no address that is not public.
  pub validate_url-IsAllowed :
      (raw_url : Text) (url : Url)
      → validate_url net policy raw_url ≡ some url
      → IsAllowed raw_url url
  unfolding validate_url check_url
  validate_url-IsAllowed raw_url url h = elim (Option-cases (net.parse_url (trim_space raw_url))) [
    | inl unread ↦ absurd (ground arith)
    | inr (parsed, read) ↦ record {
      parsed = parsed;
      read = read;
      same =
          passed_is_same _ (record parsed { fragment = [] }) url
            (rw (read, validate_url, check_url) at h);
      https = ground arith;
      anonymous = ground arith;
      not_local = ground arith;
      listed = ground arith;
      public = ground arith;
    }
  ]
