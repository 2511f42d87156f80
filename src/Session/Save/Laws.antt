-- ===== src/Session/Save/Laws.antt =====
-- The outcomes of `SaveResponse`, whatever the database driver does.
use tao_core_go.Prelude.{
  Text, true, false, none, ◌≡◌, ◌≢◌, refl, inl, inr, arith, ◌==◌, text_eq_instance, any, find,
}
use tao_core_go.Prelude.Rows.{find-update_where-none}
use tao_core_go.Float.{Float64}
use tao_core_go.Models.{ItemResponse}
use tao_core_go.Store.{Db, World, Result, ok}
use tao_core_go.Store.Faults.{Outcome, driver_failed, refused, succeeded, transaction-Outcome}
use tao_core_go.Session.{Env}
use tao_core_go.Session.Save.{save_tx, save_response, same_answer, is_reread}
use tao_core_go.Session.Save.Faults.{save_tx-IsRobust}
use tao_core_go.Session.Save.Outcome.{Refused, IsAccepted, saved, overwritten, save_tx-Ends}

module _ {F : Type 0} ⦃float : Float64 F⦄ (env : Env) (sid uid iid answer : Text)
    (w : World F) where
  abbrev pub Saves : Result (ItemResponse F) × World F → Type 0
  Saves x =
      Outcome w.db (Refused env sid uid iid answer w.db) (IsAccepted env sid uid iid answer w.db)
        x.0 x.1.db

  -- The outcomes of saving an answer, for every plan of driver faults: the driver's error or a
  -- refusal with its reason, both with the tables unchanged, or an accepted answer: the user's
  -- session is in progress and in time, where the limit is a duration of 64 bits that wraps
  -- around, the delivery asks the question, and the answer is stored as a new row or in the row
  -- that the session has for the question.
  pub save_response-Saves : Saves (save_response env sid uid iid answer w)
  unfolding save_response
  save_response-Saves =
      transaction-Outcome (save_tx env sid uid iid answer) (save_tx-IsRobust env sid uid iid answer)
        _ _ w (save_tx-Ends env sid uid iid answer w.db)

  accepted_is_fresh :
      {r : Result (ItemResponse F)} {db' : Db F} (row : ItemResponse F)
      → Outcome w.db
          (Refused env sid uid iid answer w.db)
          (IsAccepted env sid uid iid answer w.db)
          r
          db'
      → any (λ x. x.id == env.new_id) w.db.responses ≡ false
      → any (same_answer sid iid) w.db.responses ≡ true
      → r ≢ ok row
  unfolding is_reread
  accepted_is_fresh row driver_failed unused old = cc
  accepted_is_fresh row (refused e q) unused old = cc
  accepted_is_fresh row (succeeded row' db' a) unused old = elim a.stored [
    | inl first_time ↦ cc (first_time.0)
    | inr again ↦
        let unread : find (is_reread (saved env sid uid iid answer w.db))
              (overwritten env sid uid iid answer w.db)
            ≡ none =
          find-update_where-none (λ (x : ItemResponse F). x.id == env.new_id)
            (is_reread (saved env sid uid iid answer w.db)) (same_answer sid iid) _ w.db.responses
            (λ x. refl) (λ x h. ground arith) unused in
        cc (again.1, unread)
  ]

  -- With a new identifier that no response has, a second answer of a session to the same question
  -- is never accepted.
  pub save_response_again :
      (row : ItemResponse F)
      → any (λ x. x.id == env.new_id) w.db.responses ≡ false
      → any (same_answer sid iid) w.db.responses ≡ true
      → (save_response env sid uid iid answer w).0 ≢ ok row
  save_response_again row = accepted_is_fresh row save_response-Saves
