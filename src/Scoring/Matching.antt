-- ===== src/Scoring/Matching.antt =====
-- What `ScoreItem` decides: the three comparisons against what they mean.
use tao_core_go.Prelude.{
  ℕ, Text, true, false, [], map, ◌≡◌, ◌≢◌, ◌↔◌, ap, arith, some, Perm, text_eq_iff, All, map-ne-nil,
  if◌then◌else◌,
}
use tao_core_go.Text.{trim_space, split, join, sort, is_empty}
use tao_core_go.Text.Pieces.{Lacks, split-Lacks, split-ne-nil, map-trim_space-Lacks, join_injective}
use tao_core_go.Text.Sorting.{sort-eq_iff, All-sort, sort-ne-nil}
use tao_core_go.Float.{Float64}
use tao_core_go.Models.{ItemType, single_choice, multiple_choice, short_answer, other_type, Item}
use tao_core_go.Scoring.{answer_parts, answer_matches, bad_score, score_item}

-- What a matching answer is, for each type of question: the same text up to letter case, or the
-- same pieces in any order, each as often.
abbrev pub Matches : (ℕ → ℕ) → ItemType → Text → Text → Type 0
Matches fold single_choice resp ans = map fold resp ≡ map fold ans
Matches fold multiple_choice resp ans = Perm (answer_parts resp) (answer_parts ans)
Matches fold short_answer resp ans = map fold resp ≡ map fold ans
Matches fold (other_type t) resp ans = ⊥

parts_ne_nil : (s : Text) → sort (answer_parts s) ≢ []
parts_ne_nil s =
    sort-ne-nil (answer_parts s) (map-ne-nil trim_space (split b',' s) (split-ne-nil b',' s))

parts-Lacks : (s : Text) → All (Lacks b',') (sort (answer_parts s))
parts-Lacks s =
    All-sort (Lacks b',') (answer_parts s)
      (map-trim_space-Lacks b',' (split b',' s) (split-Lacks b',' s))

-- The joined sorted pieces agree exactly when the pieces are permutations of one another.
joined_iff :
    (s t : Text)
    → (join b',' (sort (answer_parts s)) ≡ join b',' (sort (answer_parts t)))
      ↔ Perm (answer_parts s) (answer_parts t)
joined_iff s t = (
  λ e.
      (sort-eq_iff (answer_parts s) (answer_parts t)).0 (
        join_injective b',' _ _ (parts_ne_nil s) (parts_ne_nil t) (parts-Lacks s) (parts-Lacks t)
          e),
  λ p. ap (join b',') ((sort-eq_iff (answer_parts s) (answer_parts t)).1 p),
)

answer_matches_iff :
    (fold : ℕ → ℕ) (type : ItemType) (resp ans : Text)
    → (answer_matches fold type resp ans ≡ true) ↔ Matches fold type resp ans
unfolding answer_matches
answer_matches_iff fold single_choice resp ans = text_eq_iff _ _
answer_matches_iff fold multiple_choice resp ans = (
  λ e. (joined_iff resp ans).0 ((text_eq_iff _ _).0 e),
  λ p. (text_eq_iff _ _).1 ((joined_iff resp ans).1 p),
)
answer_matches_iff fold short_answer resp ans = text_eq_iff _ _
answer_matches_iff fold (other_type t) resp ans = (λ e. cc, λ b. absurd b)

module _ {F : Type 0} ⦃float : Float64 F⦄ where
  -- The conditions on which an answer earns the item's score.
  pub record EarnsCredit (fold : ℕ → ℕ) (item : Item F) (response_data : Text) : Type 0 where
    pub usable : bad_score item.max_score ≡ false
    pub answered : is_empty (trim_space response_data) ≡ false
    pub keyed : is_empty (trim_space item.correct_answer) ≡ false
    pub matched :
        Matches fold item.item_type (trim_space response_data) (trim_space item.correct_answer)

  -- An answer is marked correct exactly when the item's score is usable, neither the answer nor
  -- the key is blank, and the trimmed answer matches the trimmed key: the same text up to letter
  -- case, or for multiple choice the same pieces in any order.
  pub score_item-correct_iff :
      (fold : ℕ → ℕ) (item : Item F) (response_data : Text)
      → ((score_item fold (some item) response_data).1 ≡ true) ↔ EarnsCredit fold item response_data
  unfolding score_item
  score_item-correct_iff fold item resp = (
    λ e. record {
      usable = ground arith;
      answered = ground arith;
      keyed = ground arith;
      matched = (answer_matches_iff fold item.item_type _ _).0 (ground arith);
    },
    λ c.
        let m = (answer_matches_iff fold item.item_type _ _).1 c.matched in
        rw (c.usable, c.answered, c.keyed, m),
  )

  -- The score of an answer is the item's maximum when the answer is marked correct, and zero
  -- otherwise.
  score_item-score :
      (fold : ℕ → ℕ) (item : Item F) (response_data : Text)
      → (score_item fold (some item) response_data).0
        ≡ (if (score_item fold (some item) response_data).1 then item.max_score else float.zero)
  unfolding score_item
  score_item-score fold item resp = ground arith
