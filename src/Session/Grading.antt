-- ===== src/Session/Grading.antt =====
-- What `SubmitSession` returns: the grades and the total of a completed session, and the same
-- session again when it was already completed.
use mathlib.Core.Path.{subst}
use tao_core_go.Prelude.{
  ℕ, ◌≤◌, Text, Bool, true, false, some, List, [], ◌∷◌, ◌≡◌, refl, sym, ◌⊎◌, inl, inr, arith, ◌==◌,
  nat_eq, text_eq_instance, text_eq_refl, if◌then◌else◌, find, filter, count, find-test, ◌∙◌, ap,
}
use tao_core_go.Prelude.Rows.{In, IsUnique, In-unique, In-find, In-filter, In-update_where_hit}
use tao_core_go.Float.{Float64}
use tao_core_go.Models.{in_progress, completed, status_eq_instance, TestSession, ItemResponse}
use tao_core_go.Store.{Db, World, Result, ok, err, driver, quiet}
use tao_core_go.Store.Faults.{Outcome, driver_failed, refused, succeeded, transaction-Outcome}
use tao_core_go.Session.{Env}
use tao_core_go.Session.Lookup.{Loaded, owned, responses_of}
use tao_core_go.Session.Submit.{
  submittable, complete, Services, submit_tx, after_submit, submit_session,
}
use tao_core_go.Session.Submit.Scores.{graded_response}
use tao_core_go.Session.Submit.Totals.{sum_shares, Scores-total, Scores-graded}
use tao_core_go.Session.Submit.Faults.{submit_tx-IsRobust}
use tao_core_go.Session.Submit.Outcome.{
  Refused, IsCompleted, Submitted, completed_sessions, submit-Submits, loaded_of, submit_idle,
}
use tao_core_go.Session.Consistency.{submit_session-IsConsistent}
use tao_core_go.Session.Consistency.Invariant.{IsConsistent}

module _ {A : Type 0} where
  In-filter_intro : (p : A → Bool) (xs : List A) (x : A) → In x xs → p x ≡ true → In x (filter p xs)
  unfolding filter
  In-filter_intro p [] x i h = absurd i
  In-filter_intro p (y ∷ ys) x (inl e) h =
      let hit : p y ≡ true = subst (λ z. p z ≡ true) (sym e) h in rw hit (inl e)
  In-filter_intro p (y ∷ ys) x (inr i) h =
      let later = In-filter_intro p ys x i h in
      elim (p y) as (λ b. In x (if b then y ∷ filter p ys else filter p ys)) [
        | true ↦ inr later
        | false ↦ later
      ]

  count-filter_le : (p q : A → Bool) (xs : List A) → count q (filter p xs) ≤ count q xs
  unfolding filter count
  count-filter_le p q [] = omega arith
  count-filter_le p q (x ∷ xs) = ground (arith, count-filter_le p q xs)

module _ {F : Type 0} ⦃float : Float64 F⦄ (fold : ℕ → ℕ) (env : Env) (sid uid : Text) where
  -- The row that is read again is the completed row of the session.
  pub reread_row :
      {db db' : Db F} {loaded : Loaded F} (k : IsCompleted fold env sid uid db loaded db')
      → IsConsistent db'
      → In loaded.session db'.sessions × (complete env.now k.total k.session ≡ loaded.session)
  unfolding complete submittable
  reread_row {db = db} {db' = db'} {loaded = loaded} k c' =
      let listed : In k.session db.sessions =
        In-find (owned sid uid) db.sessions k.session k.found in
      let hit =
        In-update_where_hit (submittable k.session.id k.session.user_id) (complete env.now k.total)
          db.sessions k.session listed
          (ground (arith, k.active, text_eq_refl k.session.id, text_eq_refl k.session.user_id)) in
      let again : In loaded.session (completed_sessions fold env sid uid db k.session k.total) =
        In-find (λ r. r.id == k.session.id) _ loaded.session k.reread in
      let unique : count (λ r. r.id == k.session.id)
            (completed_sessions fold env sid uid db k.session k.total)
          ≤ 1 =
        subst (λ (t : Db F). count (λ r. r.id == k.session.id) t.sessions ≤ 1) k.updated
          (c'.session_ids k.session.id) in
      (
        subst (λ (t : Db F). In loaded.session t.sessions) (sym k.updated) again,
        In-unique (λ r. r.id == k.session.id) _ _ loaded.session unique hit again
            (ground (arith, text_eq_refl k.session.id))
            (find-test (λ r. r.id == k.session.id) _ _ k.reread),
      )

  -- A session as `SubmitSession` returns it when it completes it.
  pub record IsGraded (db : Db F) (loaded : Loaded F) : Type 0 where
    -- the row before
    pub session : TestSession F
    pub found : find (owned sid uid) db.sessions ≡ some session
    pub active : session.status ≡ in_progress
    pub closed : loaded.session.status ≡ completed
    pub finished : loaded.session.finished_at ≡ some env.now
    -- the total is the sum of the grades
    pub total :
        loaded.session.total_score
        ≡ sum_shares fold session.delivery_id db float.zero (responses_of session.id db)
    -- every answer is there with its grade
    pub answers :
        (r : ItemResponse F)
        → In r (responses_of session.id db)
        → In (graded_response fold session.delivery_id db r) loaded.responses

  module _ (db : Db F) (c : IsConsistent db) where
    responses-IsUnique : (i : Text) → IsUnique (λ (r : ItemResponse F). r.id) (responses_of i db)
    unfolding responses_of
    responses-IsUnique i j = omega (
      arith,
      c.response_ids j,
      count-filter_le (λ (r : ItemResponse F). r.session_id == i) (λ r. r.id == j) db.responses,
    )

    -- An answer keeps its session when it is graded.
    graded_session :
        (d : Text) (r : ItemResponse F) → (graded_response fold d db r).session_id ≡ r.session_id
    unfolding graded_response
    graded_session d r = ground arith

    completed_session_id :
        (s : TestSession F) (total : F)
        → ((complete env.now total s).id ≡ s.id)
          × ((complete env.now total s).status ≡ completed)
          × ((complete env.now total s).finished_at ≡ some env.now)
          × ((complete env.now total s).total_score ≡ total)
    unfolding complete
    completed_session_id s total = (ground arith, ground arith, ground arith, ground arith)

    IsCompleted-IsGraded :
        {db' : Db F} {loaded : Loaded F}
        → IsCompleted fold env sid uid db loaded db'
        → IsConsistent db'
        → IsGraded db loaded
    unfolding responses_of
    IsCompleted-IsGraded {loaded = loaded} k c' =
        let row = (reread_row k c').1 in
        let (same_id, closed, finished, total) = completed_session_id k.session k.total in
        record {
          session = k.session;
          found = k.found;
          active = k.active;
          closed = subst (λ (s : TestSession F). s.status ≡ completed) row closed;
          finished = subst (λ (s : TestSession F). s.finished_at ≡ some env.now) row finished;
          total =
              subst
                (λ (s : TestSession F).
                  s.total_score
                  ≡ sum_shares fold k.session.delivery_id db float.zero
                      (responses_of k.session.id db))
                row (total ∙ Scores-total fold k.session.delivery_id db k.scored);
          answers = λ r i.
              let (j, mine) =
                In-filter (λ (x : ItemResponse F). x.session_id == k.session.id) db.responses r i in
              let graded =
                Scores-graded fold k.session.delivery_id db r k.scored
                  (responses-IsUnique k.session.id) i j in
              let kept = graded_session k.session.delivery_id r in
              let same : k.session.id ≡ loaded.session.id = sym same_id ∙ ap (λ s. s.id) row in
              rw k.listed (
                In-filter_intro (λ (x : ItemResponse F). x.session_id == loaded.session.id) k.rows _
                  graded (rw (kept, ← same) mine));
        }

  pub record Resubmitted (db : Db F) (loaded : Loaded F) : Type 0 where
    pub found : find (owned sid uid) db.sessions ≡ some loaded.session
    pub closed : loaded.session.status ≡ completed
    pub listed : loaded.responses ≡ responses_of loaded.session.id db

  Submits-IsGraded :
      (w : World F)
      → IsConsistent w.db
      → (r : Result (Loaded F × Bool)) (db' : Db F)
      → Outcome w.db (Refused fold env sid uid w.db) (Submitted fold env sid uid w.db) r db'
      → IsConsistent db'
      → (services : Services) (loaded : Loaded F) → (after_submit services r).0 ≡ ok loaded
      → IsGraded w.db loaded ⊎ Resubmitted w.db loaded
  unfolding after_submit
  Submits-IsGraded w c r db' driver_failed c' services loaded h = cc
  Submits-IsGraded w c r db' (refused e q) c' services loaded h = cc
  Submits-IsGraded w c r db' (succeeded (l, true) _ k) c' services loaded h =
      let same : l ≡ loaded = cc in
      subst (λ x. IsGraded w.db x ⊎ Resubmitted w.db x) same
        (inl (IsCompleted-IsGraded w.db c k c'))
  Submits-IsGraded w c r db' (succeeded (l, false) _ k) c' services loaded h =
      let same : l ≡ loaded = cc in
      subst (λ x. IsGraded w.db x ⊎ Resubmitted w.db x) same
        (inr (record { found = k.found; closed = k.finished; listed = k.listed }))

  -- In consistent tables, a submission that returns a session either returns the user's session in
  -- progress, now completed at this moment, with the sum of the grades as its total and every
  -- answer of it with its grade, or returns a session of the user that was completed before, with
  -- its answers.
  pub submit_session-IsGraded :
      (services : Services) (w : World F) (loaded : Loaded F)
      → IsConsistent w.db
      → (submit_session fold services env sid uid w).0.0 ≡ ok loaded
      → IsGraded w.db loaded ⊎ Resubmitted w.db loaded
  unfolding submit_session
  submit_session-IsGraded services w loaded c h =
      Submits-IsGraded w c _ _ (submit-Submits fold env sid uid w)
        (submit_session-IsConsistent fold services env sid uid w c) services loaded h

  module _ (s : TestSession F) (db : Db F) (found : find (owned sid uid) db.sessions ≡ some s)
      (closed : s.status ≡ completed) where
    idle_run :
        submit_tx fold env sid uid (quiet db)
        ≡ (ok (loaded_of fold env sid uid db s, false), quiet db)
    idle_run =
        rw (submit_idle fold env sid uid db s found (ground (arith, closed)))
          (ground (arith, closed))

  -- What a repeated submission ends in.
  abbrev Repeats : Services → TestSession F → Db F → Result (Loaded F × Bool) → Db F → Type 0
  Repeats services s db r db' =
      (db' ≡ db)
      × ((after_submit services r).1 ≡ [])
      × (((after_submit services r).0 ≡ ok (loaded_of fold env sid uid db s))
          ⊎ ((after_submit services r).0 ≡ err driver))

  Outcome-Repeats :
      (services : Services) (s : TestSession F) (db : Db F) (r : Result (Loaded F × Bool))
      (db' : Db F)
      → Outcome db (λ e. ⊥) (λ x y. (x ≡ (loaded_of fold env sid uid db s, false)) × (y ≡ db)) r db'
      → Repeats services s db r db'
  unfolding after_submit
  Outcome-Repeats services s db r db' driver_failed = (refl, refl, inr refl)
  Outcome-Repeats services s db r db' (refused e q) = absurd q
  Outcome-Repeats services s db r db' (succeeded x _ (same, kept)) = rw same (kept, refl, inl refl)

  -- Submitting a completed session again changes no table, sets nothing off, and returns the
  -- session as it is or the driver's error.
  pub submit_session_again :
      (services : Services) (s : TestSession F) (w : World F)
      → find (owned sid uid) w.db.sessions ≡ some s
      → s.status ≡ completed
      → let x = submit_session fold services env sid uid w in
        (x.1.db ≡ w.db)
        × (x.0.1 ≡ [])
        × ((x.0.0 ≡ ok (record { session = s; responses = responses_of s.id w.db }))
            ⊎ (x.0.0 ≡ err driver))
  unfolding submit_session
  submit_session_again services s w found closed = Outcome-Repeats services s w.db _ _ (
      transaction-Outcome (submit_tx fold env sid uid) (submit_tx-IsRobust fold env sid uid) _ _ w
        (rw (idle_run s w.db found closed) (refl, refl)))
