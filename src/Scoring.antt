-- ===== src/Scoring.antt =====
-- internal/service/scoring_service.go: `ScoreItem` here, `BalanceOptionsKey` in the child `Balance`.
pub mod Balance
pub mod Matching
mod Tests
use tao_core_go.Prelude.{
  ℕ, Text, Bool, true, false, not, ◌||◌, Option, none, some, List, map, text_eq, if◌then◌else◌,
}
use tao_core_go.Text.{trim_space, equal_fold, split, join, sort, is_empty}
use tao_core_go.Float.{Float64}
use tao_core_go.Models.{ItemType, single_choice, multiple_choice, short_answer, other_type, Item}

-- The pieces of an answer such as "A, C", each trimmed.
abbrev pub answer_parts : Text → List Text
answer_parts s = map trim_space (split b',' s)

-- The comparisons of the switch on `item.ItemType`.
unfoldable pub answer_matches : (ℕ → ℕ) → ItemType → Text → Text → Bool
unfolding equal_fold
answer_matches fold single_choice resp ans = equal_fold fold resp ans
answer_matches fold multiple_choice resp ans =
    text_eq (join b',' (sort (answer_parts resp))) (join b',' (sort (answer_parts ans)))
answer_matches fold short_answer resp ans = equal_fold fold resp ans
answer_matches fold (other_type t) resp ans = false

module _ {F : Type 0} ⦃float : Float64 F⦄ where
  -- MaxScore <= 0 || MaxScore > 1_000_000 || math.IsNaN(MaxScore) || math.IsInf(MaxScore, 0)
  unfoldable pub bad_score : F → Bool
  bad_score x =
      float.le x float.zero || float.lt float.million x || float.is_nan x || float.is_inf x

  abbrev pub no_credit : F × Bool
  no_credit = (float.zero, false)

  unfoldable pub score_item : (ℕ → ℕ) → Option (Item F) → Text → F × Bool
  unfolding bad_score answer_matches
  score_item fold none response_data = no_credit
  score_item fold (some item) response_data =
      let clean_resp = trim_space response_data in
      let clean_answer = trim_space item.correct_answer in
      if bad_score item.max_score
      then no_credit
      else if is_empty clean_resp || is_empty clean_answer
      then no_credit
      else if answer_matches fold item.item_type clean_resp clean_answer
      then (item.max_score, true)
      else no_credit
