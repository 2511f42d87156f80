-- ===== src/Lti/Launch/Found.antt =====
-- The two look-ups of a launch: the state and the platform that it was drawn for.
use tao_core_go.Prelude.{
  ◌<◌, Text, true, none, some, ◌≡◌, ◌⊎◌, inl, inr, refl, ◌∙◌, arith, find, find-test,
  text_eq_instance, text_eq_iff,
}
use mathlib.Core.Path.{subst}
use tao_core_go.Prelude.Rows.{In-find}
use tao_core_go.Models.{LtiPlatform, LtiOidcState}
use tao_core_go.Store.{Db, World, Result, ok, err, Error, invalid_lti_state, platform_not_found}
use tao_core_go.Store.Frame.{continue_rule}
use tao_core_go.Lti.Login.{registered_as}
use tao_core_go.Lti.Launch.{LaunchEnv, is_pending, find_state, find_platform, find_login}
use tao_core_go.Lti.Launch.Effects.{masked_first}
use tao_core_go.Lti.Launch.Verified.{none_of_unset, IsFound}

module _ {F : Type 0} (env : LaunchEnv) (state : Text) (db : Db F) where
  pending-eq :
      (r : LtiOidcState)
      → is_pending env.now state r ≡ true
      → (r.state ≡ state) × (r.used_at ≡ none) × (env.now < r.expires_at)
  unfolding is_pending
  pending-eq r h = (
    ground (arith, text_eq_iff r.state state),
    none_of_unset r.used_at (ground arith),
    ground arith,
  )

  registered-eq :
      (issuer client_id : Text) (p : LtiPlatform)
      → registered_as issuer client_id p ≡ true
      → (p.issuer ≡ issuer) × (p.client_id ≡ client_id)
  unfolding registered_as
  registered-eq issuer client_id p h =
      ground (arith, text_eq_iff p.issuer issuer, text_eq_iff p.client_id client_id)

  -- What the two look-ups of a launch give
  abbrev pub Finds : Result (LtiOidcState × LtiPlatform) × World F → Type 0
  Finds x =
      ((e : Error) × (x.0 ≡ err e) × (x.1.db ≡ db))
      ⊎ ((login : LtiOidcState × LtiPlatform) × (x.0 ≡ ok login)
          × (x.1.db ≡ db)
          × IsFound env state db login.0 login.1)

  pub find_login-Finds : (w : World F) → w.db ≡ db → Finds (find_login env.now state w)
  unfolding find_login find_state find_platform
  find_login-Finds w same =
      let (kept, row) =
        masked_first invalid_lti_state (λ d. find (is_pending env.now state) d.lti.states) w in
      continue_rule Finds _ _ _ (λ e failed. inl (e, refl, kept ∙ same))
        (λ st got.
          let (kept', row') =
            masked_first platform_not_found
              (λ d. find (registered_as st.issuer st.client_id) d.lti.platforms) _ in
          continue_rule Finds _ _ _ (λ e failed. inl (e, refl, kept' ∙ kept ∙ same))
            (λ p got'.
              let at : find (is_pending env.now state) db.lti.states ≡ some st =
                subst (λ d. find (is_pending env.now state) d.lti.states ≡ some st) same
                  (row st got) in
              let at' : find (registered_as st.issuer st.client_id) db.lti.platforms ≡ some p =
                subst (λ d. find (registered_as st.issuer st.client_id) d.lti.platforms ≡ some p)
                  (kept ∙ same) (row' p got') in
              let (asked, fresh, in_time) =
                pending-eq st (find-test (is_pending env.now state) db.lti.states st at) in
              let (issuer, client) =
                registered-eq st.issuer st.client_id p
                  (find-test (registered_as st.issuer st.client_id) db.lti.platforms p at') in
              inr (
                (st, p),
                refl,
                kept' ∙ kept ∙ same,
                record {
                  listed = In-find (is_pending env.now state) db.lti.states st at;
                  asked = asked;
                  not_used = fresh;
                  in_time = in_time;
                  registered =
                      In-find (registered_as st.issuer st.client_id) db.lti.platforms p at';
                  same_issuer = issuer;
                  same_client = client;
                },
              )))
