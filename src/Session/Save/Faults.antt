-- ===== src/Session/Save/Faults.antt =====
-- `SaveResponse` under driver errors.
use tao_core_go.Prelude.{ℕ, Text, Option, none, some}
use tao_core_go.Float.{Float64}
use tao_core_go.Models.{TestSession}
use tao_core_go.Store.Faults.{IsRobust, robust_rules}
use tao_core_go.Session.{Env}
use tao_core_go.Session.Lookup.Faults.{ensure_item_belongs_to_delivery-IsRobust}
use tao_core_go.Session.Save.{
  save_tx, check_started, ensure_session_within_time_limit, write_response,
}

module _ {F : Type 0} where
  check_started-IsRobust :
      (now : ℕ) (d : Text) (t : Option ℕ) → IsRobust (check_started {F = F} now d t)
  unfolding check_started
  check_started-IsRobust now d none = search robust_rules
  check_started-IsRobust now d (some t) = search robust_rules

  ensure_session_within_time_limit-IsRobust :
      (now : ℕ) (s : TestSession F) → IsRobust (ensure_session_within_time_limit now s)
  unfolding ensure_session_within_time_limit
  ensure_session_within_time_limit-IsRobust now s =
      check_started-IsRobust now s.delivery_id s.started_at

module _ {F : Type 0} ⦃float : Float64 F⦄ where
  write_response-IsRobust :
      (env : Env) (sid iid resp : Text) → IsRobust (write_response {F = F} env sid iid resp)
  unfolding write_response
  write_response-IsRobust env sid iid resp = search robust_rules

  pub save_tx-IsRobust :
      (env : Env) (sid uid iid resp : Text) → IsRobust (save_tx {F = F} env sid uid iid resp)
  unfolding save_tx
  save_tx-IsRobust env sid uid iid resp =
      search
        (
          robust_rules, ensure_session_within_time_limit-IsRobust,
          ensure_item_belongs_to_delivery-IsRobust, write_response-IsRobust,
        )
        depth 8
