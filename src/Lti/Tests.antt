-- ===== src/Lti/Tests.antt =====
-- A platform, its key and two launches with one state.
use tao_core_go.Prelude.{
  ℕ, zero, suc, ◌+◌, ◌≤◌, ◌<◌, Text, true, false, Option, none, some, List, [], ◌∷◌, ◌++◌, ◌≡◌,
  refl, inl, inr, arith, All, count, leb, ltb, codes, text_eq, text_eq_instance, if◌then◌else◌,
  Bool-cases, find, filter, any,
}
use mathlib.Core.Path.{subst}
use tao_core_go.Prelude.Int.{pos}
use tao_core_go.Float.{Float64}
use tao_core_go.Models.{LtiPlatform, LtiOidcState, LtiResourceLink, Delivery, in_progress}
use tao_core_go.Store.{Db, quiet, first, write, transaction, query}
use tao_core_go.Outbound.{Url}
use tao_core_go.Lti.{LtiClaims, Lib, rs256}
use tao_core_go.Lti.Keys.{Cache, signing_key, token_key_id}
use tao_core_go.Lti.Keys.Bounds.{DecodesBytes, IsSoundResult, signing_key-IsSound}
use tao_core_go.Auth.{generate_jwt}
use tao_core_go.Auth.OneToken.{signer, signer-JwtLaws}
use tao_core_go.Handlers.{json}
use tao_core_go.Handlers.Lti.{LtiRequest, LtiHandler, Grant, parsed, handle_launch_request}
use tao_core_go.Handlers.Lti.Grants.{IsGranted, Admits, handle_launch_request-IsGranted}
use tao_core_go.Prelude.Maps.{get}
use tao_core_go.Session.Start.{start_session, is_closed, latest, allowed_attempts}
use tao_core_go.Text.{trim_space}
use tao_core_go.Lti.Login.{LoginEnv, registered_as}
use tao_core_go.Lti.Launch.{
  LaunchEnv, handle_launch, is_pending, verified_claims, claims_fail, mapped_by, line_item_allowed,
  lti_user_id, save_link,
}
use tao_core_go.Lti.Launch.States.{unused, HasUniqueStates}
use tao_core_go.Lti.Launch.Verified.{Effect}
use tao_core_go.Lti.Launch.Stages.{handle_launch-Effect}
use tao_core_go.Lti.History.{Call, login_call, launch_call, serve_all, is_opened}
use tao_core_go.Lti.History.Once.{draws, serve_all-once}

instance abbrev whole : Float64 ℕ
whole = record {
  zero = 0;
  one = 1;
  million = 1_000_000;
  add = λ x y. x + y;
  mul = λ x y. x;
  le = leb;
  lt = ltb;
  is_nan = λ x. false;
  is_inf = λ x. false;
}

abbrev ones : ℕ → List ℕ
ones zero = []
ones (suc n) = 255 ∷ ones n

ones-small : (n : ℕ) → All (λ b. b < 256) (ones n)
ones-small zero = tt
ones-small (suc n) = (omega arith, ones-small n)

abbrev site : Url
site = record {
  scheme = codes "https";
  host = codes "lms.org";
  hostname = codes "lms.org";
  has_user = false;
  path = [];
  fragment = [];
}

-- The exponent 65537, and a modulus of 2048 ones
abbrev decode : Text → Option (List ℕ)
decode t = if text_eq t (codes "AQAB") then some (1 ∷ 0 ∷ 1 ∷ []) else some (ones 256)

abbrev claims : LtiClaims
claims = record {
  claimed_nonce = codes "n";
  message_type = codes "LtiResourceLinkRequest";
  lti_version = codes "1.3.0";
  deployment_id = codes "d1";
  target_link_uri = codes "https://lms.org/x";
  resource_link_id = codes "r1";
  roles = codes "Learner" ∷ [];
  line_item = [];
  scopes = [];
  subject = codes "u";
  issued_at = some 1;
}

abbrev lib : Lib
lib = record {
  net = record {
    parse_url = λ t. some site;
    parse_ip = λ t. none;
    lookup = λ t. none;
    to_lower = λ t. t;
  };
  fold = λ c. c;
  parse_unverified = λ t. some (record { kid = some (codes "k"); alg = rs256 });
  parse_with_claims = λ options key t. some (claims, true);
  http_get = λ url. some (record { status_code = 200; body = [] });
  parse_jwks = λ body. some (
      record {
        kty = codes "RSA";
        kid = codes "k";
        use_for = codes "sig";
        alg = rs256;
        n = codes "n";
        e = codes "AQAB";
      }
      ∷ []);
  decode_url = decode;
  encode_url = λ bs. bs;
  sha256 = λ t. t;
  set_query = λ t q. t;
}

abbrev platform : LtiPlatform
platform = record {
  id = codes "p";
  issuer = codes "https://lms.org";
  client_id = codes "c";
  key_set_url = codes "https://lms.org/keys";
  auth_token_url = codes "https://lms.org/token";
  auth_login_url = codes "https://lms.org/login";
  tool_launch_url = codes "https://lms.org/tool";
  key_id = [];
  private_key = [];
  public_key = [];
  created_at = 0;
}

abbrev link : LtiResourceLink
link = record {
  id = codes "l";
  platform_id = codes "p";
  deployment_id = codes "d1";
  resource_link_id = codes "r1";
  delivery_id = codes "d";
  created_at = 0;
}

abbrev delivery : Delivery
delivery = record {
  id = codes "d";
  test_id = codes "t";
  title = [];
  start_time = none;
  end_time = none;
  is_active = true;
  max_attempts = pos 3;
}

abbrev tables : Db ℕ
tables = record {
  deliveries = delivery ∷ [];
  tests = [];
  test_sections = [];
  test_items = [];
  items = [];
  delivery_groups = [];
  user_groups = [];
  sessions = [];
  responses = [];
  proctor_events = [];
  lti = record {
    platforms = platform ∷ [];
    states = [];
    resource_links = link ∷ [];
    link_sessions = [];
  };
  webhooks = record { configs = []; logs = [] };
}

decode-bytes : DecodesBytes lib
decode-bytes t bs h = elim (Bool-cases (text_eq t (codes "AQAB"))) [
  | inl exponent ↦
      let k : some (1 ∷ 0 ∷ 1 ∷ []) ≡ some bs = rw exponent at h in
      let e : 1 ∷ 0 ∷ 1 ∷ [] ≡ bs = cc in subst (All (λ b. b < 256)) e (omega arith)
  | inr modulus ↦
      let k : some (ones 256) ≡ some bs = rw modulus at h in
      let e : ones 256 ≡ bs = cc in subst (All (λ b. b < 256)) e (ones-small 256)
]

signing_key-IsSound_example :
    IsSoundResult lib decode-bytes (signing_key lib 5 6 [] platform (codes "k"))
signing_key-IsSound_example = signing_key-IsSound lib decode-bytes 5 6 [] platform (codes "k") tt

abbrev login_env : LoginEnv
login_env = record { drawn_state = codes "s"; drawn_nonce = codes "n"; now = 10 }

abbrev launch_env : LaunchEnv
launch_env = record {
  now = 20;
  checked_at = 20;
  stored_at = 20;
  session_env = record { checked_at = 20; now = 20; new_id = codes "s1" };
  linked_at = 20;
}

abbrev calls : List Call
calls =
    login_call login_env (codes "https://lms.org/") (codes "c") (codes "https://lms.org/x")
      (codes "hint") []
    ∷ launch_call launch_env (codes "t") (codes "s")
    ∷ launch_call launch_env (codes "t") (codes "s")
    ∷ []

no_states_unique : HasUniqueStates tables
unfolding count
no_states_unique i = omega arith

serve_all-once_example :
    count (is_opened (codes "s")) (serve_all lib calls [] (quiet tables))
    ≤ count (unused (codes "s")) [] + draws (codes "s") calls
serve_all-once_example = serve_all-once (codes "s") lib calls [] (quiet tables) no_states_unique

handle_launch-Effect_example :
    Effect lib launch_env []
      (codes "t")
      (codes "s")
      tables
      (handle_launch lib launch_env [] (codes "t") (codes "s") (quiet tables)).0
handle_launch-Effect_example =
    handle_launch-Effect lib launch_env [] (codes "t") (codes "s") (quiet tables) no_states_unique

-- A state that was drawn, a cached key, and the request of the launch
abbrev waiting : LtiOidcState
waiting = record {
  state = codes "s";
  expected_nonce = codes "n";
  issuer = codes "https://lms.org";
  client_id = codes "c";
  target_link_uri = codes "https://lms.org/x";
  lti_message_hint = [];
  expires_at = 1000;
  used_at = none;
  created_at = 0;
}

abbrev logged_in : Db ℕ
logged_in = record tables { lti = record (tables.lti) { states = waiting ∷ [] } }

abbrev cached : Cache
cached =
    (
      codes "https://lms.org/keys",
      record { keys = (codes "k", record { modulus = 7; exponent = 3 }) ∷ []; expires_at = 1000 },
    )
    ∷ []

abbrev user : Text
user = codes "lti:https://lms.org" ++ 0 ∷ codes "u"

abbrev handler : LtiHandler
handler = record {
  jwt = signer user (codes "STUDENT") (codes "tao") (codes "api") 105 5;
  jwt_config = record {
    secret = codes "0123456789abcdef0123456789abcdef";
    issuer = codes "tao";
    audience = codes "api";
  };
  token_ttl = pos 100;
  expiry_from = 5;
  issued_at = 5;
}

abbrev launch_request : LtiRequest
launch_request = record {
  is_post = true;
  query = λ key. [];
  form = parsed;
  post_form = λ key. if text_eq key (codes "state") then codes "s" else codes "t";
}

abbrev grant : Grant ℕ
grant = record {
  session = record {
    id = codes "s1";
    delivery_id = codes "d";
    user_id = user;
    attempt = 1;
    status = in_progress;
    time_spent_seconds = 0;
    total_score = 0;
    started_at = some 20;
    finished_at = none;
  };
  access_token = codes "t";
}

waiting_unique : HasUniqueStates logged_in
unfolding count
waiting_unique i = ground arith

answers_grant :
    (handle_launch_request lib handler launch_env cached launch_request (quiet logged_in)).0.0
    ≡ json 200 grant
unfolding handle_launch_request text_eq handle_launch first find is_pending registered_as
    token_key_id signing_key get verified_claims claims_fail mapped_by line_item_allowed write count
    start_session trim_space transaction lti_user_id generate_jwt is_closed query latest filter
    allowed_attempts any save_link
answers_grant = refl

handle_launch_request-IsGranted_example :
    IsGranted lib handler launch_env cached launch_request
      (quiet logged_in)
      grant
      (handle_launch_request lib handler launch_env cached launch_request (quiet logged_in)).0.1
    × Admits lib handler launch_env cached launch_request (quiet logged_in) grant 50
handle_launch_request-IsGranted_example =
    handle_launch_request-IsGranted lib handler launch_env cached launch_request (quiet logged_in)
      grant 100 50 (signer-JwtLaws user (codes "STUDENT") (codes "tao") (codes "api") 105 5)
      waiting_unique refl answers_grant (omega arith) (omega arith)
