-- ===== src/Float.antt =====
-- Go's `float64`. There are no floating-point numbers here, so the type and the operations that the
-- program uses are a parameter.
use tao_core_go.Prelude.{Bool}

pub record Float64 (F : Type 0) : Type 0 where
  pub zero : F
  pub one : F
  -- the constant 1_000_000
  pub million : F
  pub add : F → F → F
  pub mul : F → F → F
  -- x <= y and x < y, both false if a side is NaN
  pub le : F → F → Bool
  pub lt : F → F → Bool
  pub is_nan : F → Bool
  pub is_inf : F → Bool
