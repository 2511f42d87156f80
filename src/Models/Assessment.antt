-- ===== src/Models/Assessment.antt =====
-- internal/domain/models/assessment.go and group.go
use tao_core_go.Prelude.{ℕ, Text, Bool, Option}
use tao_core_go.Prelude.Int.{ℤ}

-- `ItemType` is a string; the switch over it knows three values.
pub data ItemType : Type 0 where
  single_choice multiple_choice short_answer : ItemType
  other_type : Text → ItemType

-- `Option`, one choice of a question
pub record ItemOption : Type 0 where
  pub identifier : Text
  pub text : Text

pub record Item (F : Type 0) : Type 0 where
  pub id : Text
  pub title : Text
  pub prompt : Text
  pub item_type : ItemType
  pub options_json : Text
  pub correct_answer : Text
  pub max_score : F
  pub layout_hint : Text

pub record Test : Type 0 where
  pub id : Text
  pub title : Text
  pub description : Text
  pub qti_version : Text
  pub time_limit_seconds : ℤ

pub record TestSection : Type 0 where
  pub id : Text
  pub test_id : Text
  pub title : Text
  pub order_index : ℤ
  pub section_type : Text

pub record TestItem (F : Type 0) : Type 0 where
  pub id : Text
  pub section_id : Text
  pub item_id : Text
  pub order_index : ℤ
  pub weight : F

pub record Delivery : Type 0 where
  pub id : Text
  pub test_id : Text
  pub title : Text
  pub start_time : Option ℕ
  pub end_time : Option ℕ
  pub is_active : Bool
  pub max_attempts : ℤ

pub record UserGroup : Type 0 where
  pub user_id : Text
  pub group_id : Text

pub record DeliveryGroup : Type 0 where
  pub delivery_id : Text
  pub group_id : Text
