-- ===== src/Lti/History/Once.antt =====
-- A state opens at most one session.
use tao_core_go.Prelude.{
  ℕ, ◌+◌, ◌≤◌, Text, true, none, List, [], ◌∷◌, ◌≡◌, inl, inr, sym, ◌∙◌, arith, count,
  text_eq_instance, text_eq_iff, Bool-cases,
}
use mathlib.Core.Path.{subst}
use tao_core_go.Prelude.Rows.{In, count_pos_of_In}
use tao_core_go.Float.{Float64}
use tao_core_go.Models.{LtiOidcState, TestSession}
use tao_core_go.Store.{Db, World, Result, Error, ok, err}
use tao_core_go.Lti.{Lib}
use tao_core_go.Lti.Keys.{Cache}
use tao_core_go.Lti.Login.{initiate_login}
use tao_core_go.Lti.Launch.{LaunchEnv, handle_launch}
use tao_core_go.Lti.Launch.States.{
  unused, HasUniqueStates, count-state-set_used, count-unused-set_used,
}
use tao_core_go.Lti.Launch.Verified.{IsUsedUp}
use tao_core_go.Lti.Launch.Stages.{handle_launch-Effect}
use tao_core_go.Lti.History.Logins.{drawn_by, IsWithin, initiate_login-IsWithin}
use tao_core_go.Lti.History.{Call, login_call, launch_call, is_ok, serve, serve_all, is_opened}

-- How often the logins of a history draw the state
unfoldable pub draws : Text → List Call → ℕ
draws state [] = 0
draws state (login_call env issuer client_id target_link_uri login_hint message_hint ∷ calls) =
    drawn_by state env + draws state calls
draws state (launch_call env id_token other ∷ calls) = draws state calls

module _ {F : Type 0} (state other : Text) (now n : ℕ) (db db' : Db F) where
  used_up-IsWithin : IsUsedUp now other db db' → IsWithin state n db → IsWithin state n db'
  used_up-IsWithin used k =
      let e = used.states in
      record {
        unique =
            λ i. rw e (omega (arith, count-state-set_used now other i db.lti.states, k.unique i));
        few = rw e (omega (arith, count-unused-set_used now other state db.lti.states, k.few));
      }

  used_up-spent :
      (st : LtiOidcState)
      → In st db.lti.states
      → st.state ≡ state
      → st.used_at ≡ none
      → IsUsedUp now state db db'
      → IsWithin state n db
      → (1 ≤ n) × (count (unused state) db'.lti.states ≤ 0)
  used_up-spent st listed asked fresh used k = (
    omega (
      arith,
      count_pos_of_In (unused state) db.lti.states st listed
          (ground (arith, text_eq_iff st.state state, asked, fresh)),
      k.few,
    ),
    omega (arith, used.spent),
  )

module _ {F : Type 0} ⦃float : Float64 F⦄ (state : Text) (lib : Lib) where
  -- After a launch at most as many rows of the state are unused as before, and none if the launch
  -- has opened a session with it.
  abbrev LaunchKeeps : ℕ → Text → Result (TestSession F) × World F → Type 0
  LaunchKeeps n other x =
      IsWithin state n x.1.db
      × (is_opened state (other, is_ok x.0) ≡ true
          → (1 ≤ n) × (count (unused state) x.1.db.lti.states ≤ 0))

  refused-LaunchKeeps :
      (n : ℕ) (other : Text) (db : Db F) (r : Result (TestSession F)) (w : World F) (e : Error)
      → IsWithin state n db
      → r ≡ err e
      → w.db ≡ db
      → LaunchKeeps n other (r, w)
  refused-LaunchKeeps n other db (ok s) w e k failed kept = cc
  refused-LaunchKeeps n other db (err e') w e k failed kept =
      (subst (IsWithin state n) (sym kept) k, λ opened. ground arith)

  handle_launch-LaunchKeeps :
      (n : ℕ) (env : LaunchEnv) (cache : Cache) (id_token other : Text) (w : World F)
      → IsWithin state n w.db
      → LaunchKeeps n other (handle_launch lib env cache id_token other w).0
  handle_launch-LaunchKeeps n env cache id_token other w k =
      let x = (handle_launch lib env cache id_token other w).0 in
      elim (handle_launch-Effect lib env cache id_token other w k.unique) [
        | inl (e, failed, kept) ↦ refused-LaunchKeeps n other w.db x.0 x.1 e k failed kept
        | inr (verified, used) ↦ (
          used_up-IsWithin state other env.now n w.db x.1.db used k,
          λ opened.
              let same : other ≡ state = ground (arith, text_eq_iff other state) in
              used_up-spent state other env.now n w.db x.1.db verified.st verified.login.listed
                (verified.login.asked ∙ same) verified.login.not_used
                (subst (λ t. IsUsedUp env.now t w.db x.1.db) same used) k,
        )
      ]

  serve_all-le :
      (calls : List Call) (cache : Cache) (n : ℕ) (w : World F)
      → IsWithin state n w.db
      → count (is_opened state) (serve_all lib calls cache w) ≤ n + draws state calls
  unfolding serve_all serve draws count
  serve_all-le [] cache n w k = omega arith
  serve_all-le (login_call env issuer client_id uri hint message_hint ∷ calls) cache n w k =
      let later =
        serve_all-le calls cache (n + drawn_by state env)
          (initiate_login lib env issuer client_id uri hint message_hint w).1
          (initiate_login-IsWithin state lib env n issuer client_id uri hint message_hint w k) in
      omega (arith, later)
  serve_all-le (launch_call env id_token other ∷ calls) cache n w k =
      let x = handle_launch lib env cache id_token other w in
      let (within, spends) = handle_launch-LaunchKeeps n env cache id_token other w k in
      elim (Bool-cases (is_opened state (other, is_ok x.0.0))) [
        | inl opened ↦
            let (one, few) = spends opened in
            let later =
              serve_all-le calls x.1 0 x.0.1 (record { unique = within.unique; few = few }) in
            rw opened (omega (arith, later, one))
        | inr not_opened ↦
            let later = serve_all-le calls x.1 n x.0.1 within in
            rw not_opened (omega (arith, later))
      ]

  -- If the states in the table are unique, then in any history of LTI logins and launches, one
  -- after another, whatever the driver does and whatever keys are cached, the launches that open a
  -- session with a given state are no more than its unused rows at the start and the times that
  -- logins drew it: a drawn state opens at most one session.
  pub serve_all-once :
      (calls : List Call) (cache : Cache) (w : World F)
      → HasUniqueStates w.db
      → count (is_opened state) (serve_all lib calls cache w)
        ≤ count (unused state) w.db.lti.states + draws state calls
  serve_all-once calls cache w unique =
      serve_all-le calls cache (count (unused state) w.db.lti.states) w
        (record { unique = unique; few = omega arith })
