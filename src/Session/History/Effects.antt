-- ===== src/Session/History/Effects.antt =====
-- What a history sets off: the completion of a session is published at most once.
use mathlib.Core.Path.{subst}
use tao_core_go.Prelude.{
  ℕ, ◌≤◌, Text, Bool, true, false, some, List, [], ◌∷◌, ◌≡◌, refl, sym, ◌∙◌, ap, ◌⊎◌, inl, inr,
  arith, ◌==◌, nat_eq, text_eq_instance, text_eq_iff, if◌then◌else◌, find, count, count-append,
  Bool-cases,
}
use tao_core_go.Prelude.Rows.{In, In-unique, In-find}
use tao_core_go.Float.{Float64}
use tao_core_go.Models.{in_progress, completed, status_eq_instance, TestSession}
use tao_core_go.Store.{Db, World, Result, ok}
use tao_core_go.Store.Faults.{Outcome, driver_failed, refused, succeeded}
use tao_core_go.Session.{Env}
use tao_core_go.Session.Lookup.{Loaded, owned}
use tao_core_go.Session.Submit.{
  Services, Effect, publish, dispatch, submit_grade, complete, notify, after_submit, submit_session,
}
use tao_core_go.Session.Submit.Outcome.{Refused, IsCompleted, Submitted, submit-Submits}
use tao_core_go.Session.Grading.{reread_row}
use tao_core_go.Session.Consistency.Invariant.{IsConsistent}
use tao_core_go.Session.History.{
  Call, start_call, save_call, submit_call, step, run, step-IsConsistent,
}
use tao_core_go.Session.History.Completed.{step-keeps}

module _ {F : Type 0} where
  -- The effect publishes the completion of the session of that id.
  unfoldable pub publishes : Text → Effect F → Bool
  publishes i (publish event loaded) = loaded.session.id == i
  publishes i (dispatch event session) = false
  publishes i (submit_grade session) = false

  -- The tables hold a completed session of that id.
  pub record HasCompleted (i : Text) (db : Db F) : Type 0 where
    pub row : TestSession F
    pub listed : In row db.sessions
    pub named : row.id ≡ i
    pub finished : row.status ≡ completed

  notify_count :
      (services : Services) (loaded : Loaded F) (i : Text)
      → count (publishes i) (notify services loaded) ≤ (if loaded.session.id == i then 1 else 0)
  unfolding notify publishes count
  notify_count services loaded i = ground arith

module _ {F : Type 0} ⦃float : Float64 F⦄ (fold : ℕ → ℕ) where
  -- What a call may publish of a session: nothing if it was completed, and else once if it is now.
  abbrev Publishes : Text → Db F → List (Effect F) → Db F → Type 0
  Publishes i db effects db' =
      (HasCompleted i db → count (publishes i) effects ≡ 0)
      × (count (publishes i) effects ≤ 1)
      × ((count (publishes i) effects ≡ 0) ⊎ HasCompleted i db')

  nothing : (i : Text) (db db' : Db F) → Publishes i db [] db'
  unfolding count
  nothing i db db' = (λ h. refl, omega arith, inl refl)

  module _ (env : Env) (sid uid : Text) (db : Db F) (c : IsConsistent db) where
    -- The session that is read again is the completed one.
    reread_completed :
        {loaded : Loaded F} {db' : Db F} (k : IsCompleted fold env sid uid db loaded db')
        → IsConsistent db'
        → HasCompleted loaded.session.id db' × (loaded.session.id ≡ k.session.id)
    unfolding complete
    reread_completed {loaded = loaded} k c' =
        let (again, one) = reread_row fold env sid uid k c' in
        (
          record {
            row = loaded.session;
            listed = again;
            named = refl;
            finished = subst (λ (s : TestSession F). s.status ≡ completed) one (ground arith);
          },
          sym (ap (λ x. x.id) one) ∙ ground arith,
        )

    -- A session in progress is not completed.
    not_yet :
        (s : TestSession F)
        → find (owned sid uid) db.sessions ≡ some s
        → s.status ≡ in_progress
        → (i : Text) → s.id ≡ i
        → HasCompleted i db
        → ⊥
    not_yet s found active i e h =
        let one : h.row ≡ s =
          In-unique (λ (r : TestSession F). r.id == i) db.sessions h.row s (c.session_ids i)
            h.listed (In-find (owned sid uid) db.sessions s found) ((text_eq_iff _ _).1 h.named)
            ((text_eq_iff _ _).1 e) in
        ground (arith, h.finished, active, one)

    Submitted-Publishes :
        (services : Services) (i : Text) (loaded : Loaded F) (did_complete : Bool) (db' : Db F)
        → Submitted fold env sid uid db (loaded, did_complete) db'
        → IsConsistent db'
        → Publishes i db (after_submit services (ok (loaded, did_complete))).1 db'
    unfolding after_submit
    Submitted-Publishes services i loaded true db' k c' =
        let (now_completed, same) = reread_completed k c' in
        let once = notify_count services loaded i in
        elim (Bool-cases (loaded.session.id == i)) [
          | inl here ↦
              let e : loaded.session.id ≡ i = (text_eq_iff _ _).0 here in
              (
                λ h. absurd (not_yet k.session k.found k.active i (sym same ∙ e) h),
                omega (arith, rw here at once),
                inr (subst (λ j. HasCompleted j db') e now_completed),
              )
          | inr other ↦
              let none_here : count (publishes i) (notify services loaded) ≡ 0 =
                omega (arith, rw other at once) in
              (λ h. none_here, omega arith, inl none_here)
        ]
    Submitted-Publishes services i loaded false db' k c' = nothing i db db'

    Submits-Publishes :
        (services : Services) (i : Text) (r : Result (Loaded F × Bool)) (db' : Db F)
        → Outcome db (Refused fold env sid uid db) (Submitted fold env sid uid db) r db'
        → IsConsistent db'
        → Publishes i db (after_submit services r).1 db'
    unfolding after_submit
    Submits-Publishes services i r db' driver_failed c' = nothing i db db
    Submits-Publishes services i r db' (refused e q) c' = nothing i db db
    Submits-Publishes services i r db' (succeeded (loaded, did_complete) _ k) c' =
        Submitted-Publishes services i loaded did_complete db' k c'

  step-Publishes :
      (i : Text) (call : Call) (w : World F)
      → IsConsistent w.db
      → Publishes i w.db (step fold call w).0 (step fold call w).1.db
  unfolding step submit_session
  step-Publishes i (start_call env d u) w c = nothing i w.db _
  step-Publishes i (save_call env sid uid iid answer) w c = nothing i w.db _
  step-Publishes i (submit_call services env sid uid) w c =
      Submits-Publishes env sid uid w.db c services i _ _ (submit-Submits fold env sid uid w)
        (step-IsConsistent fold (submit_call services env sid uid) w c)

  -- A completed session publishes nothing.
  pub run-publishes_nothing :
      (i : Text) (calls : List Call) (w : World F)
      → IsConsistent w.db
      → HasCompleted i w.db
      → count (publishes i) (run fold calls w).0 ≡ 0
  unfolding run count
  run-publishes_nothing i [] w c h = refl
  run-publishes_nothing i (call ∷ calls) w c h =
      let (effects, w') = step fold call w in
      let still : HasCompleted i w'.db = record {
        row = h.row;
        listed = step-keeps h.row h.finished fold call w c h.listed;
        named = h.named;
        finished = h.finished;
      } in
      let later = run-publishes_nothing i calls w' (step-IsConsistent fold call w c) still in
      omega (
        arith,
        count-append (publishes i) effects (run fold calls w').0,
        (step-Publishes i call w c).0 h,
        later,
      )

  -- In any history over consistent tables the completion of a session is published at most once,
  -- whatever is submitted again and whatever the driver does.
  pub run-publishes_once :
      (i : Text) (calls : List Call) (w : World F)
      → IsConsistent w.db
      → count (publishes i) (run fold calls w).0 ≤ 1
  unfolding run count
  run-publishes_once i [] w c = omega arith
  run-publishes_once i (call ∷ calls) w c =
      let (effects, w') = step fold call w in
      let c' = step-IsConsistent fold call w c in
      let later = run-publishes_once i calls w' c' in
      let split = count-append (publishes i) effects (run fold calls w').0 in
      let (_, once, or_completed) = step-Publishes i call w c in
      elim or_completed [
        | inl silent ↦ omega (arith, split, silent, later)
        | inr done ↦ omega (arith, split, once, run-publishes_nothing i calls w' c' done)
      ]
