-- ===== src/Session/History.antt =====
-- Histories of the session service: the calls that change its tables, in the order in which their
-- transactions commit, each with its own clock and identifiers; the driver's faults run through
-- the whole history. `GetSession` changes nothing and is left out.
pub mod Completed
pub mod Effects
pub mod Responses
use tao_core_go.Prelude.{ℕ, Text, List, [], ◌∷◌, ◌++◌, ◌≡◌}
use tao_core_go.Float.{Float64}
use tao_core_go.Store.{World}
use tao_core_go.Session.{Env}
use tao_core_go.Session.Start.{start_session}
use tao_core_go.Session.Save.{save_response}
use tao_core_go.Session.Submit.{Services, Effect, submit_session}
use tao_core_go.Session.Consistency.{
  start_session-IsConsistent, save_response-IsConsistent, submit_session-IsConsistent,
}
use tao_core_go.Session.Consistency.Invariant.{IsConsistent}

pub data Call : Type 0 where
  start_call : Env → Text → Text → Call
  save_call : Env → Text → Text → Text → Text → Call
  submit_call : Services → Env → Text → Text → Call

module _ {F : Type 0} ⦃float : Float64 F⦄ (fold : ℕ → ℕ) where
  -- What a call sets off, and the world after it.
  unfoldable pub step : Call → World F → List (Effect F) × World F
  step (start_call env delivery_id user_id) w = ([], (start_session env delivery_id user_id w).1)
  step (save_call env session_id user_id item_id answer) w =
      ([], (save_response env session_id user_id item_id answer w).1)
  step (submit_call services env session_id user_id) w =
      let (r, w') = submit_session fold services env session_id user_id w in (r.1, w')

  unfoldable pub run : List Call → World F → List (Effect F) × World F
  run [] w = ([], w)
  run (call ∷ calls) w =
      let (effects, w') = step call w in let (later, w'') = run calls w' in (effects ++ later, w'')

  pub step-IsConsistent :
      (call : Call) (w : World F) → IsConsistent w.db → IsConsistent (step call w).1.db
  unfolding step
  step-IsConsistent (start_call env d u) w c = start_session-IsConsistent env d u w c
  step-IsConsistent (save_call env s u i a) w c = save_response-IsConsistent env s u i a w c
  step-IsConsistent (submit_call services env s u) w c =
      submit_session-IsConsistent fold services env s u w c

  -- Any history of start, save and submit calls, whatever the driver does, keeps consistent tables
  -- consistent: identifiers of sessions and of responses are unique, a user has at most one open
  -- session of a delivery, and no more sessions of a listed delivery than its number of attempts
  -- allows.
  pub run-IsConsistent :
      (calls : List Call) (w : World F) → IsConsistent w.db → IsConsistent (run calls w).1.db
  unfolding run
  run-IsConsistent [] w c = c
  run-IsConsistent (call ∷ calls) w c =
      run-IsConsistent calls (step call w).1 (step-IsConsistent call w c)
