-- ===== src/Session/Submit/Scores.antt =====
-- The scoring loop of `SubmitSession` against the sum that it computes.
use tao_core_go.Prelude.{
  true, ℕ, Text, Bool, false, ◌||◌, none, some, List, [], ◌∷◌, ◌≡◌, refl, inl, inr, arith, ◌==◌,
  text_eq_instance, if◌then◌else◌, update_where, Bool-cases, Option-cases,
}
use tao_core_go.Float.{Float64}
use tao_core_go.Models.{TestItem, ItemResponse}
use tao_core_go.Scoring.{bad_score, score_item}
use tao_core_go.Store.{
  Db, World, Result, ok, err, Error, item_not_in_delivery, invalid_score_setting, score_overflow,
  quiet,
}
use tao_core_go.Store.Faults.{Body}
use tao_core_go.Session.Lookup.{lookup_test_item, preload_item, asks}
use tao_core_go.Session.Submit.{score_responses}

module _ {F : Type 0} where
  abbrev pub with_score : Text → F × Bool → List (ItemResponse F) → List (ItemResponse F)
  with_score id g rows =
      update_where (λ r. r.id == id) (λ r. record r { score_given = g.0; is_correct = g.1 }) rows

  abbrev pub with_responses : Db F → List (ItemResponse F) → Db F
  with_responses db rows = record db { responses = rows }

module _ {F : Type 0} ⦃float : Float64 F⦄ (fold : ℕ → ℕ) where
  -- The score of a response to a question of a test, and whether it is correct.
  abbrev pub grade : TestItem F → Db F → ItemResponse F → F × Bool
  grade ti db r =
      let graded = score_item fold (some (preload_item ti db)) r.response_data in
      (float.mul graded.0 ti.weight, graded.1)

  -- The reference: a response earns its grade at the question that the delivery asks.
  unfoldable pub graded_response : Text → Db F → ItemResponse F → ItemResponse F
  graded_response d db r = elim (lookup_test_item d r.item_id db) [
    | none ↦ r
    | some ti ↦ record r { score_given = (grade ti db r).0; is_correct = (grade ti db r).1 }
  ]

  -- A run of the loop over responses, from a total and a table to a total and a table.
  pub data Scores (d : Text) (db : Db F)
      : List (ItemResponse F) → F → List (ItemResponse F) → F → List (ItemResponse F) → Type 0 where
    done : (total : F) (rows : List (ItemResponse F)) → Scores d db [] total rows total rows
    next :
        (r : ItemResponse F) (rs : List (ItemResponse F)) (ti : TestItem F) (total total' : F)
        (rows rows' : List (ItemResponse F))
        → lookup_test_item d r.item_id db ≡ some ti
        → bad_score ti.weight || bad_score (preload_item ti db).max_score ≡ false
        → Scores d db rs
            (float.add total (grade ti db r).0)
            (with_score r.id (grade ti db r) rows)
            total'
            rows'
        → Scores d db (r ∷ rs) total rows total' rows'

  -- Why the loop stops with an error: a response to a question that the delivery does not ask, a
  -- setting that is not usable, or a total that is no finite number.
  pub data Unscorable (d : Text) (db : Db F) : List (ItemResponse F) → F → Error → Type 0 where
    not_asked :
        (r : ItemResponse F) (rs : List (ItemResponse F)) (total : F)
        → lookup_test_item d r.item_id db ≡ none
        → Unscorable d db (r ∷ rs) total item_not_in_delivery
    bad_setting :
        (r : ItemResponse F) (rs : List (ItemResponse F)) (total : F) (ti : TestItem F)
        → lookup_test_item d r.item_id db ≡ some ti
        → bad_score ti.weight || bad_score (preload_item ti db).max_score ≡ true
        → Unscorable d db (r ∷ rs) total invalid_score_setting
    overflow :
        (r : ItemResponse F) (rs : List (ItemResponse F)) (total : F) (ti : TestItem F)
        → lookup_test_item d r.item_id db ≡ some ti
        → float.is_nan (float.add total (grade ti db r).0)
            || float.is_inf (float.add total (grade ti db r).0)
          ≡ true
        → Unscorable d db (r ∷ rs) total score_overflow
    later :
        (r : ItemResponse F) (rs : List (ItemResponse F)) (total : F) (ti : TestItem F) (e : Error)
        → lookup_test_item d r.item_id db ≡ some ti
        → bad_score ti.weight || bad_score (preload_item ti db).max_score ≡ false
        → Unscorable d db rs (float.add total (grade ti db r).0) e
        → Unscorable d db (r ∷ rs) total e

  module _ (d : Text) (db : Db F) where
    abbrev Ends : List (ItemResponse F) → F → List (ItemResponse F) → Result F × World F → Type 0
    Ends rs total rows x =
        Body (Unscorable d db rs total)
          (λ total' db'.
            (rows' : List (ItemResponse F)) × (db' ≡ with_responses db rows')
            × Scores d db rs total rows total' rows')
          x.0 x.1.db

    score_responses_step :
        (r : ItemResponse F) (rs : List (ItemResponse F)) (total : F) (rows : List (ItemResponse F))
        → score_responses fold d (r ∷ rs) total (quiet (with_responses db rows))
          ≡ elim (lookup_test_item d r.item_id (with_responses db rows)) [
            | none ↦ (err item_not_in_delivery, quiet (with_responses db rows))
            | some ti ↦
                let g = grade ti (with_responses db rows) r in
                let total' = float.add total g.0 in
                if bad_score ti.weight
                  || bad_score (preload_item ti (with_responses db rows)).max_score
                then (err invalid_score_setting, quiet (with_responses db rows))
                else if float.is_nan total' || float.is_inf total'
                then (err score_overflow, quiet (with_responses db (with_score r.id g rows)))
                else score_responses fold d rs total'
                    (quiet (with_responses db (with_score r.id g rows)))
          ]
    unfolding score_responses
    score_responses_step r rs total rows = ground arith

    lookup_rows :
        (i : Text) (rows : List (ItemResponse F))
        → lookup_test_item d i (with_responses db rows) ≡ lookup_test_item d i db
    unfolding lookup_test_item asks
    lookup_rows i rows = refl

    preload_rows :
        (ti : TestItem F) (rows : List (ItemResponse F))
        → preload_item ti (with_responses db rows) ≡ preload_item ti db
    unfolding preload_item
    preload_rows ti rows = refl

    -- The step in terms of the tables that the loop does not write.
    step :
        (r : ItemResponse F) (rs : List (ItemResponse F)) (total : F) (rows : List (ItemResponse F))
        → score_responses fold d (r ∷ rs) total (quiet (with_responses db rows))
          ≡ elim (lookup_test_item d r.item_id db) [
            | none ↦ (err item_not_in_delivery, quiet (with_responses db rows))
            | some ti ↦
                let g = grade ti db r in
                let total' = float.add total g.0 in
                if bad_score ti.weight || bad_score (preload_item ti db).max_score
                then (err invalid_score_setting, quiet (with_responses db rows))
                else if float.is_nan total' || float.is_inf total'
                then (err score_overflow, quiet (with_responses db (with_score r.id g rows)))
                else score_responses fold d rs total'
                    (quiet (with_responses db (with_score r.id g rows)))
          ]
    unfolding lookup_test_item asks preload_item
    step r rs total rows = score_responses_step r rs total rows

    next-Ends :
        (r : ItemResponse F) (rs : List (ItemResponse F)) (ti : TestItem F) (total : F)
        (rows : List (ItemResponse F)) (x : Result F × World F)
        → lookup_test_item d r.item_id db ≡ some ti
        → bad_score ti.weight || bad_score (preload_item ti db).max_score ≡ false
        → Ends rs (float.add total (grade ti db r).0) (with_score r.id (grade ti db r) rows) x
        → Ends (r ∷ rs) total rows x
    next-Ends r rs ti total rows (err e, w) asked usable h = later r rs total ti e asked usable h
    next-Ends r rs ti total rows (ok total', w) asked usable h =
        (h.0, h.1, next r rs ti total total' rows h.0 asked usable h.2)

    pub score_responses-Ends :
        (rs : List (ItemResponse F)) (total : F) (rows : List (ItemResponse F))
        → Ends rs total rows (score_responses fold d rs total (quiet (with_responses db rows)))
    score_responses-Ends [] total rows = unfold score_responses in (rows, refl, done total rows)
    score_responses-Ends (r ∷ rs) total rows =
        elim (Option-cases (lookup_test_item d r.item_id db)) [
          | inl missing ↦ rw (step r rs total rows, missing) (not_asked r rs total missing)
          | inr (ti, asked) ↦
              elim (Bool-cases (bad_score ti.weight || bad_score (preload_item ti db).max_score)) [
                | inl bad ↦
                    rw (step r rs total rows, asked, bad) (bad_setting r rs total ti asked bad)
                | inr usable ↦
                    elim (Bool-cases (
                      float.is_nan (float.add total (grade ti db r).0)
                      || float.is_inf (float.add total (grade ti db r).0))) [
                        | inl over ↦
                            rw (step r rs total rows, asked, usable, over)
                              (overflow r rs total ti asked over)
                        | inr fits ↦
                            rw (step r rs total rows, asked, usable, fits)
                              (next-Ends r rs ti total rows
                                (score_responses fold d rs (float.add total (grade ti db r).0) (
                                  quiet (with_responses db (with_score r.id (grade ti db r) rows))))
                                asked usable
                                (score_responses-Ends rs (float.add total (grade ti db r).0)
                                  (with_score r.id (grade ti db r) rows)))
                      ]
              ]
        ]
