-- ===== src/Session/History/Completed.antt =====
-- A completed session is final: no later call changes its row.
use mathlib.Core.Path.{subst}
use tao_core_go.Prelude.{
  ℕ, Text, Bool, true, false, List, [], ◌∷◌, ◌≡◌, sym, inl, inr, arith, ◌==◌, nat_eq,
  text_eq_instance, text_eq_refl, Bool-cases,
}
use tao_core_go.Prelude.Rows.{In, In-unique, In-update_where, In-append_left}
use tao_core_go.Float.{Float64}
use tao_core_go.Models.{completed, status_eq_instance, TestSession}
use tao_core_go.Store.{Db, World}
use tao_core_go.Store.Atomic.{Outcome-keeps}
use tao_core_go.Text.{trim_space}
use tao_core_go.Session.{Env}
use tao_core_go.Session.Lookup.{Loaded}
use tao_core_go.Session.Start.{is_open}
use tao_core_go.Session.Start.Outcome.{Granted, resumed, begun, created}
use tao_core_go.Session.Start.Laws.{start_session-Starts}
use tao_core_go.Session.Save.Laws.{save_response-Saves}
use tao_core_go.Session.Submit.{submittable, complete, submit_session}
use tao_core_go.Session.Submit.Outcome.{Submitted, submit-Submits}
use tao_core_go.Session.Consistency.Invariant.{IsConsistent, open_session_In}
use tao_core_go.Session.History.{
  Call, start_call, save_call, submit_call, step, run, step-IsConsistent,
}

module _ {F : Type 0} ⦃float : Float64 F⦄ (x : TestSession F)
    (finished : x.status ≡ completed) where
  Granted-keeps :
      (env : Env) (d u : Text) (db : Db F)
      → IsConsistent db
      → In x db.sessions
      → {s : TestSession F} {rows : List (TestSession F)} → Granted env d u db s rows
      → In x rows
  unfolding is_open
  Granted-keeps env d u db c i (resumed s found started) = i
  Granted-keeps env d u db c i (begun s s' found e) =
      let (listed, opened) = open_session_In d u db.sessions s found in
      elim (Bool-cases (x.id == s.id)) [
        | inl same ↦
            let one : x ≡ s =
              In-unique (λ (y : TestSession F). y.id == s.id) db.sessions x s (c.session_ids s.id) i
                listed same (text_eq_refl s.id) in
            absurd (ground (arith, finished, opened, one))
        | inr other ↦ In-update_where (λ r. r.id == s.id) (λ _. s') db.sessions x i other
      ]
  Granted-keeps env d u db c i (created delivery listed no_open room fresh) =
      In-append_left db.sessions _ x i

  not_submittable : (sid uid : Text) → submittable sid uid x ≡ false
  unfolding submittable
  not_submittable sid uid = ground (arith, finished)

  module _ (fold : ℕ → ℕ) where
    Submitted-keeps :
        (env : Env) (sid uid : Text) (db : Db F)
        → In x db.sessions
        → (loaded : Loaded F × Bool) (db' : Db F) → Submitted fold env sid uid db loaded db'
        → In x db'.sessions
    Submitted-keeps env sid uid db i (loaded, true) db' k =
        subst (λ (t : Db F). In x t.sessions) (sym k.updated)
          (In-update_where (submittable k.session.id k.session.user_id) (complete env.now k.total)
            db.sessions x i (not_submittable k.session.id k.session.user_id))
    Submitted-keeps env sid uid db i (loaded, false) db' k =
        subst (λ (t : Db F). In x t.sessions) (sym k.unchanged) i

    pub step-keeps :
        (call : Call) (w : World F)
        → IsConsistent w.db
        → In x w.db.sessions
        → In x (step fold call w).1.db.sessions
    unfolding step submit_session
    step-keeps (start_call env d u) w c i =
        Outcome-keeps w.db _ _ (λ db. In x db.sessions) i
          (λ s db' g.
            subst (λ (t : Db F). In x t.sessions) (sym g.updated)
              (Granted-keeps env (trim_space d) (trim_space u) w.db c i g.granted))
          _ _ (start_session-Starts env d u w)
    step-keeps (save_call env sid uid iid answer) w c i =
        Outcome-keeps w.db _ _ (λ db. In x db.sessions) i
          (λ row db' a. subst (λ (t : Db F). In x t.sessions) (sym a.updated) i) _ _
          (save_response-Saves env sid uid iid answer w)
    step-keeps (submit_call services env sid uid) w c i =
        Outcome-keeps w.db _ _ (λ db. In x db.sessions) i (Submitted-keeps env sid uid w.db i) _ _
          (submit-Submits fold env sid uid w)

    -- In consistent tables the row of a completed session, with its score and its times, stands
    -- unchanged after any history of calls.
    pub run-keeps_completed :
        (calls : List Call) (w : World F)
        → IsConsistent w.db
        → In x w.db.sessions
        → In x (run fold calls w).1.db.sessions
    unfolding run
    run-keeps_completed [] w c i = i
    run-keeps_completed (call ∷ calls) w c i =
        run-keeps_completed calls (step fold call w).1 (step-IsConsistent fold call w c)
          (step-keeps call w c i)
