-- ===== src/Session/Submit/Totals.antt =====
-- What a run of the scoring loop leaves: the total, and the graded responses.
use mathlib.Core.Path.{subst}
use tao_core_go.Prelude.{
  ℕ, Text, false, some, List, [], ◌∷◌, ◌≡◌, refl, sym, ap, ◌∙◌, inl, inr, arith, ◌==◌,
  text_eq_instance, count, text_eq_refl, text_eq_iff,
}
use tao_core_go.Prelude.Rows.{In, IsUnique, In-update_where, In-update_where_hit, count-zero_In}
use tao_core_go.Float.{Float64}
use tao_core_go.Models.{TestItem, ItemResponse}
use tao_core_go.Store.{Db}
use tao_core_go.Session.Lookup.{lookup_test_item}
use tao_core_go.Session.Submit.Scores.{grade, graded_response, Scores, done, next}

module _ {F : Type 0} ⦃float : Float64 F⦄ (fold : ℕ → ℕ) (d : Text) (db : Db F) where
  -- A response's share of the total.
  abbrev pub share : ItemResponse F → F
  share r = (graded_response fold d db r).score_given

  graded_asked :
      (r : ItemResponse F) (ti : TestItem F)
      → lookup_test_item d r.item_id db ≡ some ti
      → graded_response fold d db r
        ≡ record r { score_given = (grade fold ti db r).0; is_correct = (grade fold ti db r).1 }
  unfolding graded_response
  graded_asked r ti asked = rw (asked, graded_response)

  -- The sum of the shares, from a start.
  unfoldable pub sum_shares : F → List (ItemResponse F) → F
  sum_shares total [] = total
  sum_shares total (r ∷ rs) = sum_shares (float.add total (share r)) rs

  -- The total is the sum, in order, of the grades of the responses.
  pub Scores-total :
      {rs rows rows' : List (ItemResponse F)} {total total' : F}
      → Scores fold d db rs total rows total' rows'
      → total' ≡ sum_shares total rs
  unfolding sum_shares
  Scores-total (done total rows) = refl
  Scores-total (next r rs ti total total' rows rows' asked usable rest) =
      Scores-total rest
      ∙ ap (λ g. sum_shares (float.add total g) rs)
          (ap (λ x. x.score_given) (sym (graded_asked r ti asked)))

  -- A row that is none of the responses stays as it is.
  pub Scores-other :
      {rs rows rows' : List (ItemResponse F)} {total total' : F} (x : ItemResponse F)
      → Scores fold d db rs total rows total' rows'
      → In x rows
      → count (λ r. r.id == x.id) rs ≡ 0
      → In x rows'
  unfolding count
  Scores-other x (done total rows) i none_same = i
  Scores-other x (next r rs ti total total' rows rows' asked usable rest) i none_same =
      let other : (r.id == x.id) ≡ false = ground arith in
      let other' : (x.id == r.id) ≡ false =
        ground (arith, text_eq_iff x.id r.id, text_eq_iff r.id x.id) in
      Scores-other x rest (In-update_where _ _ rows x i other') (ground arith)

  IsUnique-tail :
      (r : ItemResponse F) (rs : List (ItemResponse F))
      → IsUnique (λ (x : ItemResponse F). x.id) (r ∷ rs)
      → IsUnique (λ (x : ItemResponse F). x.id) rs
  unfolding count
  IsUnique-tail r rs one i = omega (arith, one i)

  head_once :
      (r : ItemResponse F) (rs : List (ItemResponse F))
      → IsUnique (λ (x : ItemResponse F). x.id) (r ∷ rs)
      → count (λ x. x.id == r.id) rs ≡ 0
  unfolding count
  head_once r rs one = ground (arith, one r.id, text_eq_refl r.id)

  head_other :
      (r : ItemResponse F) (rs : List (ItemResponse F)) (x : ItemResponse F)
      → IsUnique (λ (y : ItemResponse F). y.id) (r ∷ rs)
      → In x rs
      → (x.id == r.id) ≡ false
  unfolding count
  head_other r rs x one i = count-zero_In (λ y. y.id == r.id) rs x (head_once r rs one) i

  -- A response in the table ends up graded.
  pub Scores-graded :
      {rs rows rows' : List (ItemResponse F)} {total total' : F} (x : ItemResponse F)
      → Scores fold d db rs total rows total' rows'
      → IsUnique (λ (r : ItemResponse F). r.id) rs
      → In x rs
      → In x rows
      → In (graded_response fold d db x) rows'
  Scores-graded x (done total rows) one i j = absurd i
  Scores-graded x (next r rs ti total total' rows rows' asked usable rest) one (inl e) j =
      let j' : In r rows = subst (λ y. In y rows) (sym e) j in
      let hit =
        In-update_where_hit (λ y. y.id == r.id)
          (λ y. record y {
            score_given = (grade fold ti db r).0;
            is_correct = (grade fold ti db r).1;
          })
          rows r j' (text_eq_refl r.id) in
      let kept = Scores-other _ rest hit (head_once r rs one) in
      subst (λ y. In (graded_response fold d db y) rows') e
        (subst (λ y. In y rows') (sym (graded_asked r ti asked)) kept)
  Scores-graded x (next r rs ti total total' rows rows' asked usable rest) one (inr i) j =
      Scores-graded x rest (IsUnique-tail r rs one) i
        (In-update_where _ _ rows x j (head_other r rs x one i))
