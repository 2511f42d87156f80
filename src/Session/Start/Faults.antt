-- ===== src/Session/Start/Faults.antt =====
-- `StartSession` under driver errors.
use tao_core_go.Prelude.{ℕ, Text, Option, none, some}
use tao_core_go.Float.{Float64}
use tao_core_go.Models.{TestSession, Delivery}
use tao_core_go.Store.Faults.{IsRobust, robust_rules}
use tao_core_go.Session.{Env}
use tao_core_go.Session.Start.{
  start_tx, check_groups, check_membership, resume, new_attempt, continue_with,
}

module _ {F : Type 0} ⦃float : Float64 F⦄ where
  check_membership-IsRobust : (d u : Text) → IsRobust (check_membership {F = F} d u)
  unfolding check_membership
  check_membership-IsRobust d u = search robust_rules

  check_groups-IsRobust : (d u : Text) → IsRobust (check_groups {F = F} d u)
  unfolding check_groups
  check_groups-IsRobust d u = search (robust_rules, check_membership-IsRobust)

  resume-IsRobust : (now : ℕ) (s : TestSession F) → IsRobust (resume now s)
  unfolding resume
  resume-IsRobust now s = search robust_rules

  new_attempt-IsRobust :
      (env : Env) (del : Delivery) (d u : Text) → IsRobust (new_attempt {F = F} env del d u)
  unfolding new_attempt
  new_attempt-IsRobust env del d u = search robust_rules

  continue_with-IsRobust :
      (env : Env) (del : Delivery) (d u : Text) (o : Option (TestSession F))
      → IsRobust (continue_with env del d u o)
  unfolding continue_with
  continue_with-IsRobust env del d u (some s) = resume-IsRobust env.now s
  continue_with-IsRobust env del d u none = new_attempt-IsRobust env del d u

  pub start_tx-IsRobust : (env : Env) (d u : Text) → IsRobust (start_tx {F = F} env d u)
  unfolding start_tx
  start_tx-IsRobust env d u =
      search (robust_rules, check_groups-IsRobust, continue_with-IsRobust) depth 8
