-- ===== src/Lti/Launch/Stages.antt =====
-- The stages of a launch, each with what it refuses and what it lets through.
use tao_core_go.Prelude.{
  Text, true, Option, none, some, ◌≡◌, ◌⊎◌, inl, inr, refl, sym, ap, ◌∙◌, arith, find, find-test,
  count, update_where, text_eq_instance, text_eq_iff, Bool-cases, Option-cases,
}
use mathlib.Core.Path.{subst}
use tao_core_go.Prelude.Rows.{In-find}
use tao_core_go.Float.{Float64}
use tao_core_go.Models.{LtiPlatform, LtiOidcState, LtiResourceLink, TestSession}
use tao_core_go.Store.{
  Db, World, Result, err, Error, invalid_lti_state, invalid_lti_token, resource_link_missing,
}
use tao_core_go.Store.Frame.{Keeps, keep_rules, continue_rule}
use tao_core_go.Lti.{RsaKey, LtiClaims, Lib}
use tao_core_go.Lti.Keys.{Cache, token_key_id, signing_key}
use tao_core_go.Lti.Launch.{
  LaunchEnv, is_pending, set_used, key_for, options_for, claims_fail, verified_claims,
  line_item_allowed, mapped_by, find_mapping, mark_used, open_session, consume, finish_launch,
  with_claims, with_key, with_kid, handle_launch,
}
use tao_core_go.Lti.Launch.States.{unused, HasUniqueStates}
use tao_core_go.Lti.Launch.Effects.{
  states_of, start_session-Keeps_states, masked_first, mark_used-effect, mark_used-undone,
  save_link-Keeps_states,
}
use tao_core_go.Lti.Launch.Found.{find_login-Finds}
use tao_core_go.Lti.Launch.Verified.{
  AreAccepted, claims-AreAccepted, not_one, IsUsedUp, IsFound, Effect,
}

module _ {F : Type 0} ⦃float : Float64 F⦄ (lib : Lib) (env : LaunchEnv) where
  open_session-Keeps_states :
      (platform : LtiPlatform) (claims : LtiClaims) (mapping : LtiResourceLink)
      → Keeps {F = F} states_of (open_session lib env platform claims mapping)
  unfolding open_session
  open_session-Keeps_states platform claims mapping =
      search (keep_rules, start_session-Keeps_states, save_link-Keeps_states)

module _ {F : Type 0} ⦃float : Float64 F⦄ (lib : Lib) (env : LaunchEnv) (cache : Cache)
    (id_token state : Text) (db : Db F) (unique : HasUniqueStates db) where
  abbrev Refuses : Result (TestSession F) × World F → Type 0
  Refuses x = (e : Error) × (x.0 ≡ err e) × (x.1.db ≡ db)

  consume_lem :
      (platform : LtiPlatform) (claims : LtiClaims) (mapping : LtiResourceLink) (w : World F)
      → w.db ≡ db
      → let x = consume lib env state platform claims mapping w in
        Refuses x ⊎ IsUsedUp env.now state db x.1.db
  unfolding consume
  consume_lem platform claims mapping w same =
      continue_rule (λ x. Refuses x ⊎ IsUsedUp env.now state db x.1.db) _
        (mark_used env.now state w).0 (mark_used env.now state w).1
        (λ e failed. inl (e, refl, mark_used-undone env.now state w e failed ∙ same))
        (λ rows marked.
          elim (mark_used-effect env.now state w rows (subst HasUniqueStates (sym same) unique)
            marked) [
              | inl (one, spent, set) ↦
                  let same_states =
                    (open_session-Keeps_states lib env platform claims mapping).kept
                      (mark_used env.now state w).1 in
                  rw one (
                    inr (record {
                      spent = ap (count (unused state)) same_states ∙ spent;
                      states =
                          same_states
                          ∙ set
                          ∙ ap
                              (λ d.
                                update_where (is_pending env.now state) (set_used env.now)
                                  d.lti.states)
                              same;
                    }))
              | inr (other, kept) ↦
                  rw (not_one rows other) (inl (invalid_lti_state, refl, kept ∙ same))
            ])

  mapped_by-eq :
      (platform : LtiPlatform) (claims : LtiClaims) (m : LtiResourceLink)
      → mapped_by platform claims m ≡ true
      → (m.platform_id ≡ platform.id)
        × (m.deployment_id ≡ claims.deployment_id)
        × (m.resource_link_id ≡ claims.resource_link_id)
  unfolding mapped_by
  mapped_by-eq platform claims m h = ground (
    arith,
    text_eq_iff m.platform_id platform.id,
    text_eq_iff m.deployment_id claims.deployment_id,
    text_eq_iff m.resource_link_id claims.resource_link_id,
  )

  module _ (st : LtiOidcState) (platform : LtiPlatform) (login : IsFound env state db st platform)
      (kid : Text) (header : token_key_id lib id_token ≡ some kid) (key : RsaKey)
      (known : (signing_key lib env.checked_at env.stored_at cache platform kid).0 ≡ some key) where
    finish_lem :
        (claims : LtiClaims) (w : World F)
        → w.db ≡ db
        → lib.parse_with_claims (options_for platform) (key_for kid key) id_token
          ≡ some (claims, true)
        → AreAccepted st claims
        → Effect lib env cache id_token state db (finish_launch lib env state platform claims w)
    unfolding finish_launch find_mapping
    finish_lem claims w same signed accepted =
        let (kept, row) =
          masked_first resource_link_missing
            (λ d. find (mapped_by platform claims) d.lti.resource_links) w in
        continue_rule (Effect lib env cache id_token state db) _ _ _
          (λ e failed. inl (e, refl, kept ∙ same))
          (λ mapping got.
            let at : find (mapped_by platform claims) db.lti.resource_links ≡ some mapping =
              subst (λ d. find (mapped_by platform claims) d.lti.resource_links ≡ some mapping) same
                (row mapping got) in
            elim (Bool-cases (line_item_allowed lib platform claims)) [
              | inl allowed ↦
                  rw allowed (elim (consume_lem platform claims mapping _ (kept ∙ same)) [
                    | inl refused ↦ inl refused
                    | inr spent ↦
                        let (p, d, r) = mapped_by-eq platform claims mapping (
                          find-test (mapped_by platform claims) db.lti.resource_links mapping at) in
                        inr (
                          record {
                            st = st;
                            platform = platform;
                            kid = kid;
                            key = key;
                            claims = claims;
                            mapping = mapping;
                            login = login;
                            header = header;
                            known = known;
                            signed = signed;
                            accepted = accepted;
                            mapped =
                                In-find (mapped_by platform claims) db.lti.resource_links mapping
                                  at;
                            same_platform = p;
                            same_deployment = d;
                            same_resource = r;
                            line_item = allowed;
                          },
                          spent,
                        )
                  ])
              | inr refused ↦ rw refused (inl (invalid_lti_token, refl, kept ∙ same))
            ])

    claims_of :
        (claims : LtiClaims)
        → verified_claims lib st platform kid key id_token ≡ some claims
        → (lib.parse_with_claims (options_for platform) (key_for kid key) id_token
            ≡ some (claims, true))
          × AreAccepted st claims
    unfolding verified_claims
    claims_of claims h =
        elim (Option-cases
          (lib.parse_with_claims (options_for platform) (key_for kid key) id_token)) [
            | inl refused ↦ let k = rw (refused, verified_claims) at h in cc
            | inr ((parsed, valid), signed) ↦ elim (Bool-cases (claims_fail st parsed valid)) [
              | inl fails ↦ let k = rw (signed, fails, verified_claims) at h in cc
              | inr passes ↦
                  let (is_valid, accepted) = claims-AreAccepted st parsed valid passes in
                  let k : some parsed ≡ some claims = rw (signed, passes, verified_claims) at h in
                  let e : parsed ≡ claims = cc in
                  (signed ∙ (λ i. some (e i, is_valid i)), subst (AreAccepted st) e accepted)
            ]
          ]

    verified_lem :
        (claims : Option LtiClaims)
        → verified_claims lib st platform kid key id_token ≡ claims
        → (w : World F) → w.db ≡ db
        → Effect lib env cache id_token state db (with_claims lib env state platform claims w)
    unfolding with_claims
    verified_lem none e w same = inl (invalid_lti_token, refl, same)
    verified_lem (some claims) e w same =
        let (signed, accepted) = claims_of claims e in finish_lem claims w same signed accepted

  with_key_lem :
      (st : LtiOidcState) (platform : LtiPlatform)
      → IsFound env state db st platform
      → (kid : Text) → token_key_id lib id_token ≡ some kid
      → (key : Option RsaKey)
      → (signing_key lib env.checked_at env.stored_at cache platform kid).0 ≡ key
      → (w : World F) → w.db ≡ db
      → Effect lib env cache id_token state db
          (with_key lib env id_token state st platform kid key w)
  unfolding with_key
  with_key_lem st platform login kid header none known w same = inl (invalid_lti_token, refl, same)
  with_key_lem st platform login kid header (some key) known w same =
      verified_lem st platform login kid header key known _ refl w same

  with_kid_lem :
      (st : LtiOidcState) (platform : LtiPlatform)
      → IsFound env state db st platform
      → (kid : Option Text) → token_key_id lib id_token ≡ kid
      → (w : World F) → w.db ≡ db
      → Effect lib env cache id_token state db
          (with_kid lib env cache id_token state (st, platform) kid w).0
  unfolding with_kid
  with_kid_lem st platform login none header w same = inl (invalid_lti_token, refl, same)
  with_kid_lem st platform login (some kid) header w same =
      with_key_lem st platform login kid header _ refl w same

  handle_launch_lem :
      (w : World F)
      → w.db ≡ db
      → Effect lib env cache id_token state db (handle_launch lib env cache id_token state w).0
  unfolding handle_launch
  handle_launch_lem w same = elim (find_login-Finds env state db w same) [
    | inl (e, failed, kept) ↦ rw failed (inl (e, refl, kept))
    | inr ((st, platform), found, kept, login) ↦
        rw found (with_kid_lem st platform login _ refl _ kept)
  ]

-- If the states in the table are unique, then, whatever the driver does, a launch either fails and
-- leaves the tables as they were, or, also where the start of the session then fails, it was
-- verified and its state is used up: the state was drawn for a registered platform and was neither
-- used nor expired, the token is signed with a key of the platform and its claims are those of the
-- launch, the resource is mapped, and the line item is allowed.
pub handle_launch-Effect :
    {F : Type 0} ⦃float : Float64 F⦄ (lib : Lib) (env : LaunchEnv) (cache : Cache)
    (id_token state : Text) (w : World F)
    → HasUniqueStates w.db
    → Effect lib env cache id_token state w.db (handle_launch lib env cache id_token state w).0
handle_launch-Effect lib env cache id_token state w unique =
    handle_launch_lem lib env cache id_token state w.db unique w refl
