-- ===== src/Lti/Urls.antt =====
-- The checks of URLs: `safeClient`, `parseHTTPSURL`, `sameOrigin`, `hostnames`, `containsString`.
use tao_core_go.Prelude.{
  ℕ, Text, Bool, false, not, ◌||◌, Option, none, some, List, [], ◌∷◌, ◌++◌, codes, any, ◌==◌,
  text_eq_instance, if◌then◌else◌,
}
use tao_core_go.Text.{trim_space, is_empty, equal_fold}
use tao_core_go.Outbound.{Net, Url, OutboundPolicy, new_outbound_policy, validate_url}

abbrev checked : Url → Option Url
checked parsed =
    if not (parsed.scheme == codes "https")
      || is_empty parsed.hostname
      || parsed.has_user
      || not (is_empty parsed.fragment)
    then none
    else some parsed

-- `parseHTTPSURL`
unfoldable pub parse_https_url : Net → Text → Option Url
parse_https_url net raw = elim (net.parse_url (trim_space raw)) [
  | none ↦ none
  | some parsed ↦ checked parsed
]

-- `sameOrigin`
unfoldable pub same_origin : Net → (ℕ → ℕ) → Text → Text → Bool
same_origin net fold a b = elim (parse_https_url net a) [
  | none ↦ false
  | some u ↦ elim (parse_https_url net b) [ none ↦ false | some v ↦ equal_fold fold u.host v.host ]
]

-- `containsString`
unfoldable pub contains_string : List Text → Text → Bool
contains_string values expected = any (λ v. v == expected) values

abbrev pub add_host : Text → List Text → List Text
add_host host result = if contains_string result host then result else result ++ host ∷ []

-- `hostnames`; the hosts seen are those in the result so far.
unfoldable pub hostnames_from : Net → List Text → List Text → List Text
hostnames_from net result [] = result
hostnames_from net result (raw ∷ raws) =
    hostnames_from net
      (elim (parse_https_url net raw) [
        | none ↦ result
        | some parsed ↦ add_host (net.to_lower parsed.hostname) result
      ])
      raws

unfoldable pub hostnames : Net → List Text → List Text
unfolding hostnames_from
hostnames net raws = hostnames_from net [] raws

-- `safeClient`: the policy, where it admits the URL
unfoldable pub safe_client : Net → Text → List Text → Option OutboundPolicy
safe_client net raw allowed = elim (new_outbound_policy net allowed) [
  | none ↦ none
  | some policy ↦ elim (validate_url net policy raw) [ none ↦ none | some validated ↦ some policy ]
]
