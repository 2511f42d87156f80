-- ===== src/Session/Submit/Faults.antt =====
-- `SubmitSession` under driver errors.
use tao_core_go.Prelude.{ℕ, Text, List, [], ◌∷◌}
use tao_core_go.Float.{Float64}
use tao_core_go.Models.{ItemResponse}
use tao_core_go.Store.Faults.{IsRobust, robust_rules}
use tao_core_go.Session.{Env}
use tao_core_go.Session.Lookup.{Loaded}
use tao_core_go.Session.Lookup.Faults.{load_responses-IsRobust, find_delivery_test_item-IsRobust}
use tao_core_go.Session.Submit.{submit_tx, score_responses, finish_session}

module _ {F : Type 0} ⦃float : Float64 F⦄ (fold : ℕ → ℕ) where
  pub score_responses-IsRobust :
      (d : Text) (rs : List (ItemResponse F)) (total : F)
      → IsRobust (score_responses fold d rs total)
  unfolding score_responses
  score_responses-IsRobust d [] total = search robust_rules
  score_responses-IsRobust d (r ∷ rs) total =
      let ih = score_responses-IsRobust d rs in
      search (robust_rules, find_delivery_test_item-IsRobust, ih) depth 8

  finish_session-IsRobust :
      (env : Env) (l : Loaded F) (total : F) → IsRobust (finish_session fold env l total)
  unfolding finish_session
  finish_session-IsRobust env l total = search (robust_rules, load_responses-IsRobust) depth 8

  pub submit_tx-IsRobust :
      (env : Env) (sid uid : Text) → IsRobust (submit_tx {F = F} fold env sid uid)
  unfolding submit_tx
  submit_tx-IsRobust env sid uid =
      search
        (robust_rules, load_responses-IsRobust, score_responses-IsRobust, finish_session-IsRobust)
        depth 8
