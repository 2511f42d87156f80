-- ===== src/Scoring/Tests.antt =====
-- Scoring and balancing at work on a question with two options.
use mathlib.Core.Path.{ap}
use mathlib.Core.List.{Nodup, Nodup-cons, Nodup-nil, mem_of_ne_of_mem, not-mem-nil}
use tao_core_go.Prelude.{
  ℕ, ◌+◌, ◌*◌, true, false, Option, some, List, [], ◌∷◌, map, ◌≡◌, ◌≢◌, ◌↔◌, arith, leb, ltb, codes,
}
use tao_core_go.Float.{Float64}
use tao_core_go.Models.{multiple_choice, Item, ItemOption}
use tao_core_go.Scoring.{score_item}
use tao_core_go.Scoring.Matching.{EarnsCredit, score_item-correct_iff}
use tao_core_go.Scoring.Balance.Laws.{IsDraw, Balances, balance_options_key-IsBalanced}

instance abbrev whole : Float64 ℕ
whole = record {
  zero = 0;
  one = 1;
  million = 1_000_000;
  add = λ x y. x + y;
  mul = λ x y. x * y;
  le = leb;
  lt = ltb;
  is_nan = λ x. false;
  is_inf = λ x. false;
}

abbrev plain : ℕ → ℕ
plain c = c

abbrev question : Item ℕ
question = record {
  id = codes "i1";
  title = [];
  prompt = [];
  item_type = multiple_choice;
  options_json = [];
  correct_answer = codes "A,C";
  max_score = 5;
  layout_hint = [];
}

score_item-correct_iff_example :
    ((score_item plain (some question) (codes "C, A")).1 ≡ true)
    ↔ EarnsCredit plain question (codes "C, A")
score_item-correct_iff_example = score_item-correct_iff plain question (codes "C, A")

abbrev two_options : List ItemOption
two_options =
    record { identifier = codes "x"; text = codes "first" }
    ∷ record { identifier = codes "y"; text = codes "second" }
    ∷ []

-- The first place is always drawn.
abbrev draw_first : ℕ → Option ℕ
draw_first i = some 0

draw_first-IsDraw : IsDraw draw_first
draw_first-IsDraw i j h = ground arith

differ : codes "x" ≢ codes "y"
differ e =
    let first : ◌≡◌ {A = ℕ} 120 121 = ap (λ t. elim t [ [] ↦ 0 | c ∷ s ↦ c ]) e in
    omega (arith, first)

two_options-Nodup : Nodup (map (λ o. o.identifier) two_options)
two_options-Nodup =
    Nodup-cons.1
      (λ m. not-mem-nil (mem_of_ne_of_mem differ m), Nodup-cons.1 (not-mem-nil, Nodup-nil))

balance_options_key-IsBalanced_example : Balances draw_first draw_first-IsDraw two_options
balance_options_key-IsBalanced_example =
    balance_options_key-IsBalanced draw_first draw_first-IsDraw two_options two_options-Nodup
