-- ===== src/Session.antt =====
-- internal/service/session_service.go. What the service takes from its surroundings (the clock,
-- new identifiers) comes in an `Env`; the transactions are the functions ending in `_tx`.
pub mod Lookup
pub mod Start
pub mod Save
pub mod Submit
pub mod Consistency
pub mod Grading
pub mod History
mod Tests
use tao_core_go.Prelude.{ℕ, Text}

-- The clock and the generator of identifiers, as one call of a service sees them.
pub record Env : Type 0 where
  -- `time.Now()` in the check of the time limit
  pub checked_at : ℕ
  -- the later `time.Now()` of the call
  pub now : ℕ
  -- `uuid.New().String()`
  pub new_id : Text
