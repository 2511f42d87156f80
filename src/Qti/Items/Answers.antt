-- ===== src/Qti/Items/Answers.antt =====
-- The answer of an imported question names the options that the answer of its XML names.
use tao_core_go.Prelude.{Text, some, List, [], ◌≡◌}
use tao_core_go.Float.{Float64}
use tao_core_go.Models.{Item, ItemOption}
use tao_core_go.Scoring.Balance.{letter, lookup, shuffle, relabel, no_randomness, too_many_options}
use tao_core_go.Scoring.Balance
use tao_core_go.Scoring.Balance.Laws.{Permutes}
use tao_core_go.Qti.{AssessmentItem, QtiLib}
use tao_core_go.Qti.Items.{ItemEnv, read_choices, correct_answer}
use tao_core_go.Qti.Items.Naming.{IsMapped}

module _ {F : Type 0} ⦃float : Float64 F⦄ (lib : QtiLib F) (env : ItemEnv)
    (media_map : List (Text × Text)) (q : AssessmentItem F) where
  -- The question keeps its choices, shuffled and with new identifiers, and its answer names the
  -- same ones.
  pub record IsFaithful (item : Item F) : Type 0 where
    pub options : List ItemOption
    pub read : read_choices q.simple_choices ≡ some options
    pub shuffled : List ItemOption
    pub kept : Permutes options shuffled
    pub stored : item.options_json ≡ lib.marshal_options (relabel 0 [] shuffled).0
    pub answer : IsMapped shuffled (relabel 0 [] shuffled).0 (correct_answer q) item.correct_answer
