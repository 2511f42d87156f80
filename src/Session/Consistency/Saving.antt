-- ===== src/Session/Consistency/Saving.antt =====
-- `SaveResponse` keeps the invariant.
use mathlib.Core.Path.{subst}
use tao_core_go.Prelude.{
  Text, false, List, [], ◌∷◌, ◌++◌, ◌≡◌, refl, sym, inl, inr, arith, ◌==◌, text_eq_instance,
  text_eq_iff, any, Bool-cases,
}
use tao_core_go.Prelude.Rows.{IsUnique, count-update_where, count_append_one, count-zero_of_any}
use tao_core_go.Float.{Float64}
use tao_core_go.Models.{ItemResponse}
use tao_core_go.Store.{Db, World}
use tao_core_go.Session.{Env}
use tao_core_go.Session.Save.{same_answer, save_response}
use tao_core_go.Session.Save.Outcome.{saved, overwritten, IsAccepted}
use tao_core_go.Session.Save.Laws.{save_response-Saves}
use tao_core_go.Session.Consistency.Invariant.{IsConsistent, Outcome-IsConsistent}

module _ {F : Type 0} where
  -- Only the responses change, and their identifiers stay unique.
  pub with_responses-IsConsistent :
      (db : Db F) (rows : List (ItemResponse F))
      → IsConsistent db
      → IsUnique (λ (r : ItemResponse F). r.id) rows
      → IsConsistent (record db { responses = rows })
  with_responses-IsConsistent db rows c unique = record {
    session_ids = c.session_ids;
    response_ids = unique;
    one_open = c.one_open;
    capped = c.capped;
  }

module _ {F : Type 0} ⦃float : Float64 F⦄ (env : Env) (sid uid iid answer : Text) (db : Db F)
    (c : IsConsistent db) where
  appended-IsUnique :
      any (λ r. r.id == env.new_id) db.responses ≡ false
      → IsUnique
          (λ (r : ItemResponse F). r.id)
          (db.responses ++ saved env sid uid iid answer db ∷ [])
  appended-IsUnique unused i =
      let one =
        count_append_one (λ (r : ItemResponse F). r.id == i) db.responses
          (saved env sid uid iid answer db) in
      elim (Bool-cases (env.new_id == i)) [
        | inl same ↦
            let e : env.new_id ≡ i = (text_eq_iff _ _).0 same in
            let none_same =
              count-zero_of_any (λ (r : ItemResponse F). r.id == env.new_id) (λ r. r.id == i)
                db.responses (λ x h. rw e h) unused in
            rw (one, same) (omega (arith, none_same))
        | inr other ↦ rw (one, other) (omega (arith, c.response_ids i))
      ]

  overwritten-IsUnique :
      IsUnique (λ (r : ItemResponse F). r.id) (overwritten env sid uid iid answer db)
  overwritten-IsUnique i =
      let rewrite : ItemResponse F → ItemResponse F = λ r. record r {
        response_data = answer;
        responded_at = env.now;
        score_given = float.zero;
        is_correct = false;
      } in
      rw
        (count-update_where (λ (r : ItemResponse F). r.id == i) (same_answer sid iid) rewrite
          db.responses (λ x h e. refl))
        (c.response_ids i)

  IsAccepted-IsUnique :
      {row : ItemResponse F} {db' : Db F} (a : IsAccepted env sid uid iid answer db row db')
      → IsUnique (λ (r : ItemResponse F). r.id) a.responses
  IsAccepted-IsUnique a = elim a.stored [
    | inl appended ↦ subst (IsUnique (λ r. r.id)) (sym appended.3) (appended-IsUnique appended.1)
    | inr replaced ↦ subst (IsUnique (λ r. r.id)) (sym replaced.2) overwritten-IsUnique
  ]

pub save_response-IsConsistent :
    {F : Type 0} ⦃float : Float64 F⦄ (env : Env) (sid uid iid answer : Text) (w : World F)
    → IsConsistent w.db
    → IsConsistent (save_response env sid uid iid answer w).1.db
save_response-IsConsistent env sid uid iid answer w c =
    Outcome-IsConsistent w.db _ _ c
      (λ row db' a. subst IsConsistent (sym a.updated) (
        with_responses-IsConsistent w.db a.responses c
          (IsAccepted-IsUnique env sid uid iid answer w.db c a)))
      _ _ (save_response-Saves env sid uid iid answer w)
