-- ===== src/Lti/Login.antt =====
-- `InitiateLogin`: the first step of a launch, which draws a state and a nonce.
use tao_core_go.Prelude.{
  ℕ, ◌+◌, Text, Bool, not, ◌&&◌, ◌||◌, none, List, [], ◌∷◌, ◌++◌, codes, ltb, leb, eqb, find,
  filter, any, ◌==◌, text_eq_instance, if◌then◌else◌,
}
use tao_core_go.Text.{len, is_empty, trim_space, trim_right}
use tao_core_go.Models.{LtiPlatform, LtiOidcState}
use tao_core_go.Store.{
  Db, Tx, ok, err, platform_not_found, invalid_lti_request, duplicated_key, pure, raise, first,
  write, ◌>>=◌,
}
use tao_core_go.Lti.{Lib, mask, ignore}
use tao_core_go.Lti.Urls.{same_origin}

-- The clock and the random identifiers of one login
pub record LoginEnv : Type 0 where
  pub drawn_state : Text
  pub drawn_nonce : Text
  pub now : ℕ

abbrev pub five_minutes : ℕ
five_minutes = 300_000_000_000

unfoldable pub is_slash : ℕ → Bool
is_slash c = eqb c b'/'

unfoldable pub registered_as : Text → Text → LtiPlatform → Bool
registered_as issuer client_id p = p.issuer == issuer && p.client_id == client_id

unfoldable pub is_too_long : Text → Text → Text → Text → Text → Bool
is_too_long issuer client_id target_link_uri login_hint message_hint =
    ltb 255 (len issuer)
    || ltb 255 (len client_id)
    || ltb 500 (len target_link_uri)
    || ltb 4096 (len login_hint)
    || ltb 4096 (len message_hint)

unfoldable pub login_query : LoginEnv → LtiPlatform → Text → Text → List (Text × Text)
login_query env platform login_hint message_hint =
    (codes "response_type", codes "id_token")
    ∷ (codes "response_mode", codes "form_post")
    ∷ (codes "scope", codes "openid")
    ∷ (codes "client_id", platform.client_id)
    ∷ (codes "redirect_uri", platform.tool_launch_url)
    ∷ (codes "login_hint", login_hint)
    ∷ (codes "state", env.drawn_state)
    ∷ (codes "nonce", env.drawn_nonce)
    ∷ (codes "prompt", codes "none")
    ∷ (if is_empty message_hint then [] else (codes "lti_message_hint", message_hint) ∷ [])

unfoldable pub new_state : LoginEnv → LtiPlatform → Text → Text → LtiOidcState
new_state env platform target_link_uri message_hint = record {
  state = env.drawn_state;
  expected_nonce = env.drawn_nonce;
  issuer = platform.issuer;
  client_id = platform.client_id;
  target_link_uri = target_link_uri;
  lti_message_hint = message_hint;
  expires_at = env.now + five_minutes;
  used_at = none;
  created_at = env.now;
}

abbrev pub with_states : {F : Type 0} → List LtiOidcState → Db F → Db F
with_states states db = record db { lti = record (db.lti) { states = states } }

module _ {F : Type 0} where
  -- The primary key is the state.
  unfoldable pub create_state : LtiOidcState → Tx F Unit
  unfolding write
  create_state row = write (λ db.
      if any (λ r. r.state == row.state) db.lti.states
      then err duplicated_key
      else ok (tt, with_states (db.lti.states ++ row ∷ []) db))

  unfoldable pub delete_expired : ℕ → Tx F Unit
  unfolding write
  delete_expired now =
      write (λ db. ok (tt, with_states (filter (λ r. leb now r.expires_at) db.lti.states) db))

  -- The state is kept, states that have expired are deleted, and the user is sent on.
  unfoldable pub remember : Lib → LoginEnv → Text → Text → Text → LtiPlatform → Tx F Text
  remember lib env target_link_uri login_hint message_hint platform =
      create_state (new_state env platform target_link_uri message_hint) >>= λ created.
      ignore (delete_expired env.now) >>= λ deleted.
      pure
        (lib.set_query platform.auth_login_url (login_query env platform login_hint message_hint))

  unfoldable pub redirect : Lib → LoginEnv → Text → Text → Text → LtiPlatform → Tx F Text
  unfolding remember
  redirect lib env target_link_uri login_hint message_hint platform =
      if is_empty (trim_space login_hint)
        || not (same_origin lib.net lib.fold target_link_uri platform.tool_launch_url)
      then raise invalid_lti_request
      else remember lib env target_link_uri login_hint message_hint platform

  unfoldable pub find_issuer : Text → Text → Tx F LtiPlatform
  find_issuer issuer client_id = mask platform_not_found (
      first platform_not_found
        (λ db. find (registered_as (trim_right is_slash issuer) client_id) db.lti.platforms))

  unfoldable pub start_login : Lib → LoginEnv → Text → Text → Text → Text → Text → Tx F Text
  unfolding redirect find_issuer
  start_login lib env issuer client_id target_link_uri login_hint message_hint =
      find_issuer issuer client_id >>= redirect lib env target_link_uri login_hint message_hint

  -- `InitiateLogin`: the URL to which the user is sent
  unfoldable pub initiate_login : Lib → LoginEnv → Text → Text → Text → Text → Text → Tx F Text
  unfolding start_login
  initiate_login lib env issuer client_id target_link_uri login_hint message_hint =
      if is_too_long issuer client_id target_link_uri login_hint message_hint
      then raise invalid_lti_request
      else start_login lib env issuer client_id target_link_uri login_hint message_hint
