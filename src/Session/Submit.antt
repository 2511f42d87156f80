-- ===== src/Session/Submit.antt =====
-- `SubmitSession`
pub mod Outcome
pub mod Totals
pub mod Scores
pub mod Faults
use tao_core_go.Prelude.{
  ℕ, zero, suc, ◌+◌, ◌-◌, ◌/◌, Text, Bool, true, false, ◌&&◌, ◌||◌, Option, none, some, List, [],
  ◌∷◌, ◌++◌, codes, ◌==◌, nat_eq, text_eq_instance, text_eq, find, count, update_where,
  if◌then◌else◌,
}
use tao_core_go.Float.{Float64}
use tao_core_go.Models.{
  Item, TestItem, TestSession, ItemResponse, SessionStatus, completed, in_progress,
  status_eq_instance,
}
use tao_core_go.Scoring.{bad_score, score_item}
use tao_core_go.Store.{
  Db, World, Tx, Result, ok, err, Error, session_completed, session_not_active, record_not_found,
  invalid_score_setting, score_overflow, pure, raise, query, first, write, transaction, ◌>>=◌, ◌>>◌,
}
use tao_core_go.Session.{Env}
use tao_core_go.Session.Lookup.{Loaded, owned, find_owned, load_responses, find_delivery_test_item}
use tao_core_go.Session.Save.{second}

module _ {F : Type 0} where
  -- Select("score_given", "is_correct").Updates of the row of that id
  unfoldable pub store_score : Text → F → Bool → Tx F Unit
  unfolding write
  store_score response_id score is_correct = write (λ db. ok (
    tt,
    record db {
      responses =
          update_where (λ r. r.id == response_id)
            (λ r. record r { score_given = score; is_correct = is_correct }) db.responses;
    },
  ))

  unfoldable pub submittable : Text → Text → TestSession F → Bool
  unfolding owned
  submittable session_id user_id s = owned session_id user_id s && s.status == in_progress

  -- The new columns of the row; the time spent only if the session has a start.
  unfoldable pub complete : ℕ → F → TestSession F → TestSession F
  complete now total s = elim s.started_at [
    | none ↦ record s { status = completed; total_score = total; finished_at = some now }
    | some t ↦ record s {
      status = completed;
      total_score = total;
      finished_at = some now;
      time_spent_seconds = (now - t) / second;
    }
  ]

  -- Where("id = ? AND user_id = ? AND status = ?").Updates, with the rows affected
  unfoldable pub complete_rows : ℕ → F → Text → Text → Db F → Result (ℕ × Db F)
  unfolding submittable complete
  complete_rows now total session_id user_id db = ok (
    count (submittable session_id user_id) db.sessions,
    record db {
      sessions = update_where (submittable session_id user_id) (complete now total) db.sessions;
    },
  )

module _ {F : Type 0} ⦃float : Float64 F⦄ (fold : ℕ → ℕ) where
  -- The loop over the responses, with the total so far.
  unfoldable pub score_responses : Text → List (ItemResponse F) → F → Tx F F
  unfolding find_delivery_test_item store_score
  score_responses delivery_id [] total = pure total
  score_responses delivery_id (resp ∷ rest) total =
      find_delivery_test_item delivery_id resp.item_id >>= λ found.
      if bad_score found.0.weight || bad_score found.1.max_score
      then raise invalid_score_setting
      else (let graded = score_item fold (some found.1) resp.response_data in
          let score = float.mul graded.0 found.0.weight in
          let sum = float.add total score in
          store_score resp.id score graded.1
          >> (if float.is_nan sum || float.is_inf sum
              then raise score_overflow
              else score_responses delivery_id rest sum))

  unfoldable pub finish_session : Env → Loaded F → F → Tx F (Loaded F × Bool)
  unfolding complete_rows load_responses write first
  finish_session env loaded total = do
    affected ← write (complete_rows env.now total loaded.session.id loaded.session.user_id)
    if affected == 1
        then (do
          session ← first record_not_found (λ db. find (λ s. s.id == loaded.session.id) db.sessions)
          again ← load_responses session
          pure (again, true))
        else raise session_completed

  -- The session and whether this call completed it.
  unfoldable pub submit_tx : Env → Text → Text → Tx F (Loaded F × Bool)
  unfolding find_owned load_responses
  submit_tx env session_id user_id = do
    session ← find_owned session_id user_id
    loaded ← load_responses session
    if session.status == completed then pure (loaded, false) else do
      if session.status == in_progress
          then (do
            total ← score_responses session.delivery_id loaded.responses float.zero
            finish_session env loaded total)
          else raise session_not_active

-- Which of the services are set.
pub record Services : Type 0 where
  pub event_bus : Bool
  pub webhook_service : Bool
  pub lti_service : Bool

-- What a completed session sets off, in this order.
pub data Effect (F : Type 0) : Type 0 where
  publish : Text → Loaded F → Effect F
  dispatch : Text → TestSession F → Effect F
  submit_grade : TestSession F → Effect F

abbrev pub session_completed_event : Text
session_completed_event = codes "session.completed"

module _ {F : Type 0} where
  abbrev only_if : Bool → Effect F → List (Effect F)
  only_if b e = if b then e ∷ [] else []

  unfoldable pub notify : Services → Loaded F → List (Effect F)
  notify services loaded =
      only_if services.event_bus (publish session_completed_event loaded)
      ++ only_if services.webhook_service (dispatch session_completed_event loaded.session)
      ++ only_if services.lti_service (submit_grade loaded.session)

  unfoldable pub after_submit :
      Services → Result (Loaded F × Bool) → Result (Loaded F) × List (Effect F)
  unfolding notify
  after_submit services (err e) = (err e, [])
  after_submit services (ok (loaded, did_complete)) =
      (ok loaded, if did_complete then notify services loaded else [])

  -- The result, what it sets off, and the world.
  unfoldable pub submit_session :
      ⦃float : Float64 F⦄
      → (ℕ → ℕ)
      → Services
      → Env
      → Text
      → Text
      → World F
      → (Result (Loaded F) × List (Effect F)) × World F
  unfolding submit_tx score_responses finish_session after_submit
  submit_session fold services env session_id user_id w =
      let (r, w') = transaction (submit_tx fold env session_id user_id) w in
      (after_submit services r, w')
