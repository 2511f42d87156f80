-- ===== src/Qti/Items.antt =====
-- `parseQTIXMLFile`: one question from one XML file of a package.
pub mod Naming
pub mod Answers
use tao_core_go.Prelude.{
  ℕ, Text, Bool, true, false, not, ◌&&◌, ◌||◌, Option, none, some, List, [], ◌∷◌, length, any, ltb,
  codes, if◌then◌else◌,
}
use tao_core_go.Prelude.Int.{ℤ, pos, negsuc}
use tao_core_go.Text.{len, is_empty, trim_space, split, join}
use tao_core_go.Float.{Float64}
use tao_core_go.Models.{Item, ItemType, single_choice, multiple_choice, ItemOption}
use tao_core_go.Scoring.Balance.{IdentifierMap, lookup, balance_options_key, Balanced}
use tao_core_go.Scoring.Balance
use tao_core_go.Qti.{Stream, ZipFile, AssessmentItem, QtiLib}
use tao_core_go.Qti.Limits.{max_xml_size}
use tao_core_go.Qti.Paths.{replace_all}

abbrev pub comma : ℕ
comma = b','

-- The random numbers of the shuffle, and the identifier for a question that has none
pub record ItemEnv : Type 0 where
  pub draw : ℕ → Option ℕ
  pub new_id : Text

-- Every path of the map is replaced by its URL, in the order in which the map is visited.
unfoldable pub replace_media : List (Text × Text) → Text → Text
replace_media [] prompt = prompt
replace_media (entry ∷ entries) prompt = replace_media entries (replace_all entry.0 entry.1 prompt)

-- The options, trimmed; none where a choice is too long
unfoldable pub read_choices : List ItemOption → Option (List ItemOption)
read_choices [] = some []
read_choices (choice ∷ choices) =
    let rest = read_choices choices in
    if ltb 64 (len choice.identifier) || ltb 4096 (len choice.text) then none else elim rest [
      | none ↦ none
      | some options ↦
          some (record { identifier = choice.identifier; text = trim_space choice.text } ∷ options)
    ]

-- The parts of the answer, each mapped to the new identifier of its option
unfoldable pub map_parts : IdentifierMap → List Text → Option (List Text)
map_parts m [] = some []
map_parts m (part ∷ parts) = elim (lookup (trim_space part) m) [
  | none ↦ none
  | some mapped ↦ elim (map_parts m parts) [ none ↦ none | some rest ↦ some (mapped ∷ rest) ]
]

unfoldable pub map_answer : IdentifierMap → Text → Option Text
map_answer m answer =
    if is_empty answer then some answer else elim (map_parts m (split comma answer)) [
      | none ↦ none
      | some parts ↦ if ltb 255 (len (join comma parts)) then none else some (join comma parts)
    ]

abbrev pub correct_answer : {F : Type 0} → AssessmentItem F → Text
correct_answer q = join comma q.correct_response

-- No question, or a field that is too long
unfoldable pub is_refused : {F : Type 0} → AssessmentItem F → Bool
is_refused q =
    is_empty q.identifier && is_empty q.response_identifier
    || ltb 36 (len q.identifier)
    || ltb 255 (len q.title)
    || ltb 1_048_576 (len q.prompt)

unfoldable pub type_of : ℤ → ItemType
type_of (pos n) = if ltb 1 n then multiple_choice else single_choice
type_of (negsuc n) = single_choice

module _ {F : Type 0} ⦃float : Float64 F⦄ where
  -- 0 is replaced by 1
  unfoldable pub score_or_one : F → F
  score_or_one x = if float.le x float.zero && float.le float.zero x then float.one else x

  unfoldable pub is_bad_score : F → Bool
  is_bad_score x =
      float.lt x float.zero || float.lt float.million x || float.is_nan x || float.is_inf x

  -- The question, once its options are shuffled and its answer is mapped
  unfoldable pub build_item :
      QtiLib F
      → ItemEnv
      → List (Text × Text)
      → AssessmentItem F
      → List ItemOption
      → Text
      → Option (Item F)
  build_item lib env media_map q options answer =
      if is_bad_score (score_or_one q.default_value)
      then none
      else some (record {
        id = if is_empty q.identifier then env.new_id else q.identifier;
        title = q.title;
        prompt =
            replace_media (lib.visit media_map) (if is_empty q.prompt then q.title else q.prompt);
        item_type = type_of q.max_choices;
        options_json = lib.marshal_options options;
        correct_answer = answer;
        max_score = score_or_one q.default_value;
        layout_hint = [];
      })

  abbrev pub with_balanced :
      QtiLib F
      → ItemEnv
      → List (Text × Text)
      → AssessmentItem F
      → Balanced (List ItemOption × IdentifierMap)
      → Option (Item F)
  with_balanced lib env media_map q (Balance.err e) = none
  with_balanced lib env media_map q (Balance.ok (options, m)) =
      elim (map_answer m (correct_answer q)) [
        | none ↦ none
        | some answer ↦ build_item lib env media_map q options answer
      ]

  unfoldable pub item_of :
      QtiLib F → ItemEnv → List (Text × Text) → AssessmentItem F → Option (Item F)
  item_of lib env media_map q =
      if is_refused q then none else elim (read_choices q.simple_choices) [
        | none ↦ none
        | some options ↦ with_balanced lib env media_map q (balance_options_key env.draw options)
      ]

  unfoldable pub item_of_stream : QtiLib F → ItemEnv → List (Text × Text) → Stream → Option (Item F)
  item_of_stream lib env media_map stream =
      if stream.broken || ltb max_xml_size (length stream.bytes)
      then none
      else elim (lib.unmarshal stream.bytes) [ none ↦ none | some q ↦ item_of lib env media_map q ]

  -- `parseQTIXMLFile`
  unfoldable pub parse_qti_xml_file :
      QtiLib F → ItemEnv → List (Text × Text) → ZipFile → Option (Item F)
  parse_qti_xml_file lib env media_map file = elim file.opened [
    | none ↦ none
    | some stream ↦ item_of_stream lib env media_map stream
  ]
