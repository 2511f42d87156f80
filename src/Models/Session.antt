-- ===== src/Models/Session.antt =====
-- internal/domain/models/session.go
use tao_core_go.Prelude.{ℕ, Text, Bool, true, false, Option, ◌≡◌, ◌↔◌, Comparable, arith}

pub data SessionStatus : Type 0 where
  not_started in_progress paused completed : SessionStatus

abbrev pub status_eq : SessionStatus → SessionStatus → Bool
status_eq not_started not_started = true
status_eq in_progress in_progress = true
status_eq paused paused = true
status_eq completed completed = true
status_eq _ _ = false

pub status_eq_iff : (a b : SessionStatus) → (status_eq a b ≡ true) ↔ (a ≡ b)
status_eq_iff not_started b = ground arith
status_eq_iff in_progress b = ground arith
status_eq_iff paused b = ground arith
status_eq_iff completed b = ground arith

instance abbrev pub status_eq_instance : Comparable SessionStatus
status_eq_instance = record { same = status_eq; same_iff = status_eq_iff }

-- the row of `test_sessions`; `Responses` is a relation, loaded by `Preload`
pub record TestSession (F : Type 0) : Type 0 where
  pub id : Text
  pub delivery_id : Text
  pub user_id : Text
  pub attempt : ℕ
  pub status : SessionStatus
  pub time_spent_seconds : ℕ
  pub total_score : F
  pub started_at : Option ℕ
  pub finished_at : Option ℕ

pub record ItemResponse (F : Type 0) : Type 0 where
  pub id : Text
  pub session_id : Text
  pub item_id : Text
  pub response_data : Text
  pub score_given : F
  pub is_correct : Bool
  pub responded_at : ℕ
