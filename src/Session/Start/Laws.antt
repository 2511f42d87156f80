-- ===== src/Session/Start/Laws.antt =====
-- The outcomes of `StartSession`, whatever the database driver does.
use tao_core_go.Prelude.{Text, true, ◌||◌, ◌≡◌, inl, inr, Bool-cases}
use tao_core_go.Text.{trim_space, is_empty}
use tao_core_go.Float.{Float64}
use tao_core_go.Models.{TestSession}
use tao_core_go.Store.{Db, World, Result, Error, delivery_not_found}
use tao_core_go.Store.Faults.{Outcome, driver_failed, refused, succeeded, transaction-Outcome}
use tao_core_go.Session.{Env}
use tao_core_go.Session.Start.{start_session}
use tao_core_go.Session.Start.Faults.{start_tx-IsRobust}
use tao_core_go.Session.Start.Outcome.{Refused, IsGranted, start_tx-Ends}

module _ {F : Type 0} ⦃float : Float64 F⦄ (env : Env) (delivery_id user_id : Text)
    (w : World F) where
  -- Why a call is refused: a blank identifier, or a reason that the trimmed ones give.
  pub data IsRefused : Error → Type 0 where
    blank :
        is_empty (trim_space delivery_id) || is_empty (trim_space user_id) ≡ true
        → IsRefused delivery_not_found
    for_reason :
        (e : Error) → Refused env (trim_space delivery_id) (trim_space user_id) w.db e → IsRefused e

  abbrev pub Starts : Result (TestSession F) × World F → Type 0
  Starts x =
      Outcome w.db IsRefused (IsGranted env (trim_space delivery_id) (trim_space user_id) w.db) x.0
        x.1.db

  with_reason :
      {r : Result (TestSession F)} {db' : Db F}
      → Outcome w.db
          (Refused env (trim_space delivery_id) (trim_space user_id) w.db)
          (IsGranted env (trim_space delivery_id) (trim_space user_id) w.db)
          r
          db'
      → Outcome w.db IsRefused
          (IsGranted env (trim_space delivery_id) (trim_space user_id) w.db)
          r
          db'
  with_reason driver_failed = driver_failed
  with_reason (refused e q) = refused e (for_reason e q)
  with_reason (succeeded s db' p) = succeeded s db' p

  pub start_session-Starts : Starts (start_session env delivery_id user_id w)
  unfolding start_session
  start_session-Starts =
      elim (Bool-cases (is_empty (trim_space delivery_id) || is_empty (trim_space user_id))) [
        | inl is_blank ↦ rw is_blank (refused delivery_not_found (blank is_blank))
        | inr named ↦ rw named (
            with_reason (
              transaction-Outcome _
                (start_tx-IsRobust env (trim_space delivery_id) (trim_space user_id)) _ _ w
                (start_tx-Ends env (trim_space delivery_id) (trim_space user_id) w.db)))
      ]
