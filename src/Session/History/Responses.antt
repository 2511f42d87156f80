-- ===== src/Session/History/Responses.antt =====
-- The answers of a completed session are final too.
use mathlib.Core.Path.{subst}
use tao_core_go.Prelude.{
  ℕ, Text, Bool, true, false, some, List, [], ◌∷◌, ◌≡◌, refl, sym, inl, inr, arith, ◌==◌, nat_eq,
  text_eq_instance, text_eq_refl, text_eq_iff, find, count, Bool-cases, find-test,
}
use tao_core_go.Prelude.Rows.{
  In, IsUnique, In-unique, In-update_where, In-append_left, In-find, In-filter,
}
use tao_core_go.Float.{Float64}
use tao_core_go.Models.{in_progress, completed, status_eq_instance, TestSession, ItemResponse}
use tao_core_go.Store.{Db, World}
use tao_core_go.Session.{Env}
use tao_core_go.Session.Lookup.{Loaded, owned, responses_of}
use tao_core_go.Session.Start.Laws.{start_session-Starts}
use tao_core_go.Session.Save.{same_answer}
use tao_core_go.Session.Save.Outcome.{IsAccepted, saved}
use tao_core_go.Session.Save.Laws.{save_response-Saves}
use tao_core_go.Session.Submit.{submit_session}
use tao_core_go.Session.Submit.Totals.{Scores-other}
use tao_core_go.Session.Submit.Outcome.{Submitted, submit-Submits}
use tao_core_go.Session.Consistency.Invariant.{IsConsistent}
use tao_core_go.Session.History.{
  Call, start_call, save_call, submit_call, step, run, step-IsConsistent,
}
use tao_core_go.Store.Atomic.{Outcome-keeps}
use tao_core_go.Session.History.Completed.{step-keeps}

module _ {A : Type 0} where
  -- No row of a selection has the identifier of a row that is not selected.
  pub count-filter_other :
      (p : A → Bool) (key : A → Text) (xs : List A) (y : A)
      → IsUnique key xs
      → In y xs
      → p y ≡ false
      → (zs : List A) → ((x : A) → In x zs → In x xs × (p x ≡ true))
      → count (λ x. key x == key y) zs ≡ 0
  unfolding count
  count-filter_other p key xs y one i miss [] selected = refl
  count-filter_other p key xs y one i miss (z ∷ zs) selected =
      let later = count-filter_other p key xs y one i miss zs (λ x j. selected x (inr j)) in
      let (j, hit) = selected z (inl refl) in
      elim (Bool-cases (key z == key y)) [
        | inl same ↦
            let e : z ≡ y =
              In-unique (λ x. key x == key y) xs z y (one (key y)) j i same
                (text_eq_refl (key y)) in
            absurd (ground (arith, rw e at hit))
        | inr other ↦ rw other (omega (arith, later))
      ]

module _ {F : Type 0} ⦃float : Float64 F⦄ (x : TestSession F) (finished : x.status ≡ completed)
    (y : ItemResponse F) (answer_of : y.session_id ≡ x.id) where
  -- A session in progress is another one.
  module _ (db : Db F) (c : IsConsistent db) (i : In x db.sessions) where
    other_session :
        (s : TestSession F)
        → In s db.sessions
        → s.status ≡ in_progress
        → (y.session_id == s.id) ≡ false
    other_session s j active = elim (Bool-cases (x.id == s.id)) [
      | inl same ↦
          let one : x ≡ s =
            In-unique (λ (z : TestSession F). z.id == s.id) db.sessions x s (c.session_ids s.id) i j
              same (text_eq_refl s.id) in
          absurd (ground (arith, finished, active, one))
      | inr other ↦ rw answer_of other
    ]

    found_other :
        (sid uid : Text) (s : TestSession F)
        → find (owned sid uid) db.sessions ≡ some s
        → s.status ≡ in_progress
        → (y.session_id == sid) ≡ false
    unfolding owned
    found_other sid uid s found active =
        let test : s.id == sid ≡ true =
          ground (arith, find-test (owned sid uid) db.sessions s found) in
        let e : s.id ≡ sid = (text_eq_iff s.id sid).0 test in
        subst (λ t. y.session_id == t ≡ false) e
          (other_session s (In-find (owned sid uid) db.sessions s found) active)

    IsAccepted-keeps :
        (env : Env) (sid uid iid answer : Text) {row : ItemResponse F} {db' : Db F}
        (a : IsAccepted env sid uid iid answer db row db')
        → In y db.responses
        → In y a.responses
    unfolding same_answer
    IsAccepted-keeps env sid uid iid answer a j = elim a.stored [
      | inl appended ↦
          subst (In y) (sym appended.3)
            (In-append_left db.responses (saved env sid uid iid answer db ∷ []) y j)
      | inr replaced ↦ subst (In y) (sym replaced.2) (
          In-update_where (same_answer sid iid) _ db.responses y j
            (ground (arith, found_other sid uid a.session a.found a.active)))
    ]

    module _ (fold : ℕ → ℕ) (env : Env) (sid uid : Text) where
      Submitted-keeps :
          (loaded : Loaded F × Bool) (db' : Db F)
          → Submitted fold env sid uid db loaded db'
          → In y db.responses
          → In y db'.responses
      unfolding responses_of
      Submitted-keeps (loaded, true) db' k j =
          let other =
            other_session k.session (In-find (owned sid uid) db.sessions k.session k.found)
              k.active in
          let unasked =
            count-filter_other (λ (r : ItemResponse F). r.session_id == k.session.id) (λ r. r.id)
              db.responses y c.response_ids j other (responses_of k.session.id db)
              (λ r.
                In-filter (λ (r : ItemResponse F). r.session_id == k.session.id) db.responses r) in
          subst (λ (t : Db F). In y t.responses) (sym k.updated)
            (Scores-other fold k.session.delivery_id db y k.scored j unasked)
      Submitted-keeps (loaded, false) db' k j =
          subst (λ (t : Db F). In y t.responses) (sym k.unchanged) j

  module _ (fold : ℕ → ℕ) where
    step-keeps_response :
        (call : Call) (w : World F)
        → IsConsistent w.db
        → In x w.db.sessions
        → In y w.db.responses
        → In y (step fold call w).1.db.responses
    unfolding step submit_session
    step-keeps_response (start_call env d u) w c i j =
        Outcome-keeps w.db _ _ (λ db. In y db.responses) j
          (λ s db' g. subst (λ (t : Db F). In y t.responses) (sym g.updated) j) _ _
          (start_session-Starts env d u w)
    step-keeps_response (save_call env sid uid iid answer) w c i j =
        Outcome-keeps w.db _ _ (λ db. In y db.responses) j
          (λ row db' a.
            subst (λ (t : Db F). In y t.responses) (sym a.updated)
              (IsAccepted-keeps w.db c i env sid uid iid answer a j))
          _ _ (save_response-Saves env sid uid iid answer w)
    step-keeps_response (submit_call services env sid uid) w c i j =
        Outcome-keeps w.db _ _ (λ db. In y db.responses) j
          (λ loaded db' k. Submitted-keeps w.db c i fold env sid uid loaded db' k j) _ _
          (submit-Submits fold env sid uid w)

    -- In consistent tables every response of a completed session, with its answer and its grade,
    -- stands unchanged after any history of calls.
    pub run-keeps_answers :
        (calls : List Call) (w : World F)
        → IsConsistent w.db
        → In x w.db.sessions
        → In y w.db.responses
        → In y (run fold calls w).1.db.responses
    unfolding run
    run-keeps_answers [] w c i j = j
    run-keeps_answers (call ∷ calls) w c i j =
        run-keeps_answers calls (step fold call w).1 (step-IsConsistent fold call w c)
          (step-keeps x finished fold call w c i) (step-keeps_response call w c i j)
