-- ===== src/Models/Proctor.antt =====
-- internal/domain/models/proctor.go
use tao_core_go.Prelude.{ℕ, Text}
use tao_core_go.Prelude.Int.{ℤ}

-- `ProctorEventType` is a string that a client sends; five values are known.
pub data ProctorEventType : Type 0 where
  tab_switch focus_lost screenshot_attempt copy_attempt fullscreen_exit : ProctorEventType
  other_event : Text → ProctorEventType

pub record ProctorEvent : Type 0 where
  pub id : Text
  pub session_id : Text
  pub event_type : ProctorEventType
  pub duration_seconds : ℤ
  pub details : Text
  pub created_at : ℕ

pub data RiskLevel : Type 0 where
  low medium high : RiskLevel

pub record ProctorAnalyticsSummary : Type 0 where
  pub session_id : Text
  pub total_tab_switches : ℕ
  pub total_focus_lost_seconds : ℤ
  pub total_screenshot_attempts : ℕ
  pub total_copy_attempts : ℕ
  pub risk_level : RiskLevel
