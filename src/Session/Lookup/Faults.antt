-- ===== src/Session/Lookup/Faults.antt =====
-- The shared queries under driver errors.
use tao_core_go.Prelude.{Text}
use tao_core_go.Float.{Float64}
use tao_core_go.Models.{TestSession}
use tao_core_go.Store.Faults.{IsRobust, robust_rules}
use tao_core_go.Session.Lookup.{
  find_owned, load_responses, get_session, find_delivery_test_item, ensure_item_belongs_to_delivery,
}

module _ {F : Type 0} where
  pub find_owned-IsRobust : (sid uid : Text) → IsRobust (find_owned {F = F} sid uid)
  unfolding find_owned
  find_owned-IsRobust sid uid = search robust_rules

  pub load_responses-IsRobust : (s : TestSession F) → IsRobust (load_responses s)
  unfolding load_responses
  load_responses-IsRobust s = search robust_rules

  pub get_session-IsRobust : (sid uid : Text) → IsRobust (get_session {F = F} sid uid)
  unfolding get_session
  get_session-IsRobust sid uid = search robust_rules

module _ {F : Type 0} ⦃float : Float64 F⦄ where
  pub find_delivery_test_item-IsRobust :
      (d i : Text) → IsRobust (find_delivery_test_item {F = F} d i)
  unfolding find_delivery_test_item
  find_delivery_test_item-IsRobust d i = search robust_rules

  pub ensure_item_belongs_to_delivery-IsRobust :
      (d i : Text) → IsRobust (ensure_item_belongs_to_delivery {F = F} d i)
  unfolding ensure_item_belongs_to_delivery
  ensure_item_belongs_to_delivery-IsRobust d i = search robust_rules
