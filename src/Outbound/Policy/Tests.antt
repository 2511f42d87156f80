-- ===== src/Outbound/Policy/Tests.antt =====
-- A policy with one host and a resolver that gives a private address before a public one.
use tao_core_go.Prelude.{false, some, none, [], ◌∷◌, ◌≡◌, refl, codes, any, text_eq, find}
use tao_core_go.Outbound.{v4, Url, Net, OutboundPolicy, dial_address, validate_url}
use tao_core_go.Outbound.Policy.{
  IsDialled, dial_address-IsDialled, IsAllowed, validate_url-IsAllowed,
}

abbrev hook : Url
hook = record {
  scheme = codes "https";
  host = codes "h.org:8443";
  hostname = codes "h.org";
  has_user = false;
  path = codes "/x";
  fragment = codes "f";
}

abbrev net : Net
net = record {
  parse_url = λ t. some hook;
  parse_ip = λ t. none;
  lookup = λ t. some (v4 167_772_161 ∷ v4 134_744_072 ∷ []);
  to_lower = λ t. t;
}

abbrev policy : OutboundPolicy
policy = record { allowed_hosts = codes "h.org" ∷ [] }

dialled : dial_address net policy (codes "h.org.") ≡ some (v4 134_744_072)
unfolding dial_address any text_eq find
dialled = refl

dial_address-IsDialled_example : IsDialled net policy (codes "h.org.") (v4 134_744_072)
dial_address-IsDialled_example =
    dial_address-IsDialled net policy (codes "h.org.") (v4 134_744_072) dialled

abbrev called : Url
called = record hook { fragment = [] }

validated : validate_url net policy (codes " https://h.org/x") ≡ some called
unfolding validate_url text_eq any
validated = refl

validate_url-IsAllowed_example : IsAllowed net policy (codes " https://h.org/x") called
validate_url-IsAllowed_example =
    validate_url-IsAllowed net policy (codes " https://h.org/x") called validated
