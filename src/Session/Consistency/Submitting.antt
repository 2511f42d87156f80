-- ===== src/Session/Consistency/Submitting.antt =====
-- `SubmitSession` keeps the invariant.
use mathlib.Core.Path.{subst}
use tao_core_go.Prelude.{
  ℕ, Text, Bool, true, false, ◌&&◌, List, ◌≡◌, refl, sym, ◌∙◌, arith, ◌==◌, text_eq_instance, count,
}
use tao_core_go.Prelude.Rows.{count-update_where, count-update_where_le}
use tao_core_go.Float.{Float64}
use tao_core_go.Models.{status_eq_instance, TestSession, ItemResponse}
use tao_core_go.Store.{Db, World}
use tao_core_go.Session.{Env}
use tao_core_go.Session.Lookup.{Loaded}
use tao_core_go.Session.Start.{belongs, is_open}
use tao_core_go.Session.Submit.{submittable, complete, Services, submit_session}
use tao_core_go.Session.Submit.Scores.{Scores, done, next}
use tao_core_go.Session.Submit.Outcome.{IsCompleted, Submitted, completed_sessions, submit-Submits}
use tao_core_go.Session.Consistency.Invariant.{IsConsistent, Outcome-IsConsistent}

module _ {F : Type 0} ⦃float : Float64 F⦄ (fold : ℕ → ℕ) where
  -- The loop changes no identifier.
  pub Scores-count :
      {d : Text} {db : Db F} {rs rows rows' : List (ItemResponse F)} {total total' : F} (i : Text)
      → Scores fold d db rs total rows total' rows'
      → count (λ (r : ItemResponse F). r.id == i) rows'
        ≡ count (λ (r : ItemResponse F). r.id == i) rows
  Scores-count i (done total rows) = refl
  Scores-count i (next r rs ti total total' rows rows' asked usable rest) =
      Scores-count i rest
      ∙ count-update_where (λ (x : ItemResponse F). x.id == i) (λ x. x.id == r.id) _ rows
          (λ x h e. refl)

  module _ (env : Env) (sid uid : Text) (db : Db F) (c : IsConsistent db) where
    complete_count :
        (q : TestSession F → Bool) (s : TestSession F) (total : F)
        → ((x : TestSession F) → q (complete env.now total x) ≡ q x)
        → count q (completed_sessions fold env sid uid db s total) ≡ count q db.sessions
    complete_count q s total same =
        count-update_where q (submittable s.id s.user_id) (complete env.now total) db.sessions
          (λ x i h. same x)

    IsCompleted-IsConsistent :
        {loaded : Loaded F} {db' : Db F}
        → IsCompleted fold env sid uid db loaded db'
        → IsConsistent db'
    unfolding complete belongs is_open
    IsCompleted-IsConsistent k =
        let rows = completed_sessions fold env sid uid db k.session k.total in
        let after : IsConsistent (record db { responses = k.rows; sessions = rows }) = record {
          session_ids = λ i.
              rw (complete_count (λ x. x.id == i) k.session k.total (λ x. ground arith))
                (c.session_ids i);
          response_ids = λ i. rw (Scores-count i k.scored) (c.response_ids i);
          one_open = λ d u. omega (
            arith,
            c.one_open d u,
            count-update_where_le (λ x. belongs d u x && is_open x)
                (submittable k.session.id k.session.user_id) (complete env.now k.total) db.sessions
                (λ x h. absurd (ground arith)),
          );
          capped = λ d u delivery listed.
              rw (complete_count (belongs d u) k.session k.total (λ x. ground arith))
                (c.capped d u delivery listed);
        } in
        subst IsConsistent (sym k.updated) after

    Submitted-IsConsistent :
        (x : Loaded F × Bool) (db' : Db F) → Submitted fold env sid uid db x db' → IsConsistent db'
    Submitted-IsConsistent (loaded, true) db' k = IsCompleted-IsConsistent k
    Submitted-IsConsistent (loaded, false) db' k = subst IsConsistent (sym k.unchanged) c

  pub submit_session-IsConsistent :
      (services : Services) (env : Env) (sid uid : Text) (w : World F)
      → IsConsistent w.db
      → IsConsistent (submit_session fold services env sid uid w).1.db
  unfolding submit_session
  submit_session-IsConsistent services env sid uid w c =
      Outcome-IsConsistent w.db _ _ c (Submitted-IsConsistent env sid uid w.db c) _ _
        (submit-Submits fold env sid uid w)
