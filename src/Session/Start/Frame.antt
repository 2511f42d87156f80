-- ===== src/Session/Start/Frame.antt =====
-- `StartSession` leaves the tables of LTI alone.
use tao_core_go.Prelude.{
  ℕ, Text, Option, none, some, [], ◌∷◌, ◌++◌, ◌≡◌, refl, ◌||◌, any, update_where, ◌==◌,
  text_eq_instance,
}
use tao_core_go.Float.{Float64}
use tao_core_go.Text.{trim_space, is_empty}
use tao_core_go.Models.{TestSession, Delivery, LtiTables}
use tao_core_go.Store.{Db, World, duplicated_key}
use tao_core_go.Store.Frame.{
  Keeps, Keeps-update, Keeps-guarded, Keeps-raise, Keeps-transaction, Keeps-if, keep_rules,
}
use tao_core_go.Session.{Env}
use tao_core_go.Session.Start.{
  save_session, create_session, same_session_key, start_session, start_tx, check_groups,
  check_membership, resume, new_attempt, continue_with,
}

abbrev lti_of : {F : Type 0} → Db F → LtiTables
lti_of db = db.lti

module _ {F : Type 0} where
  save_session-Keeps : (row : TestSession F) → Keeps lti_of (save_session row)
  unfolding save_session
  save_session-Keeps row =
      Keeps-update lti_of (λ db. tt)
        (λ db. record db { sessions = update_where (λ r. r.id == row.id) (λ _. row) db.sessions })
        (λ db. refl)

  create_session-Keeps : (row : TestSession F) → Keeps lti_of (create_session row)
  unfolding create_session
  create_session-Keeps row =
      Keeps-guarded lti_of (λ db. any (same_session_key row) db.sessions) duplicated_key
        (λ db. record db { sessions = db.sessions ++ row ∷ [] }) (λ db. refl)

module _ {F : Type 0} ⦃float : Float64 F⦄ where
  check_membership-Keeps : (d u : Text) → Keeps lti_of (check_membership {F = F} d u)
  unfolding check_membership
  check_membership-Keeps d u = search keep_rules

  check_groups-Keeps : (d u : Text) → Keeps lti_of (check_groups {F = F} d u)
  unfolding check_groups
  check_groups-Keeps d u = search (keep_rules, check_membership-Keeps)

  resume-Keeps : (now : ℕ) (s : TestSession F) → Keeps lti_of (resume now s)
  unfolding resume
  resume-Keeps now s = search (keep_rules, save_session-Keeps)

  new_attempt-Keeps :
      (env : Env) (del : Delivery) (d u : Text) → Keeps lti_of (new_attempt {F = F} env del d u)
  unfolding new_attempt
  new_attempt-Keeps env del d u = search (keep_rules, create_session-Keeps)

  continue_with-Keeps :
      (env : Env) (del : Delivery) (d u : Text) (o : Option (TestSession F))
      → Keeps lti_of (continue_with env del d u o)
  unfolding continue_with
  continue_with-Keeps env del d u (some s) = resume-Keeps env.now s
  continue_with-Keeps env del d u none = new_attempt-Keeps env del d u

  start_tx-Keeps : (env : Env) (d u : Text) → Keeps lti_of (start_tx {F = F} env d u)
  unfolding start_tx
  start_tx-Keeps env d u = search (keep_rules, check_groups-Keeps, continue_with-Keeps) depth 8

  pub start_session-keeps_lti :
      (env : Env) (d u : Text) (w : World F) → (start_session env d u w).1.db.lti ≡ w.db.lti
  unfolding start_session
  start_session-keeps_lti env d u w =
      (Keeps-if lti_of (is_empty (trim_space d) || is_empty (trim_space u)) _ _
          (Keeps-raise lti_of _)
          (Keeps-transaction lti_of _ (start_tx-Keeps env (trim_space d) (trim_space u)))).kept
        w
