-- ===== src/Export/Rows.antt =====
-- Every row of an export is safe to open, and none is missing where the writer took them all.
use mathlib.Core.Path.{subst}
use tao_core_go.Prelude.{
  ℕ, suc, Text, Bool, true, false, List, [], ◌∷◌, ◌≡◌, refl, ◌∙◌, ap, inl, inr, length, length-map,
  length-filter, count, codes, ◌==◌, text_eq_instance, All, Bool-cases,
}
use tao_core_go.Models.{ProctorAnalyticsSummary}
use tao_core_go.Store.{
  Db, World, Tx, Result, ok, err, Error, driver, pure, query, attempt, continue, ◌>>=◌,
}
use tao_core_go.Session.Lookup.{Loaded}
use tao_core_go.Proctor.{get_proctor_analytics}
use tao_core_go.Export.{
  Formats, header, row_of, export_rows, with_responses_of, sessions_of, export_loaded, put_header,
  put_row, risk_text, export_delivery_results_csv,
}
use tao_core_go.Export.Cells.{is_formula, sanitize_csv_cell-is_formula}

-- The cells that a user or a client chose: the session, the user and the risk level.
abbrev pub user_cells : List Text → List Text
user_cells (a ∷ b ∷ c ∷ d ∷ e ∷ f ∷ rest) = a ∷ b ∷ f ∷ []
user_cells _ = []

pub record IsSafeRow (row : List Text) : Type 0 where
  pub ten_cells : length row ≡ length header
  pub no_formula : All (λ cell. is_formula cell ≡ false) (user_cells row)

-- What was written of that many rows.
abbrev pub Writes : ℕ → Result (List (List Text) × Bool) → Type 0
Writes n (err e) = Unit
Writes n (ok (rows, done)) = All IsSafeRow rows × (done ≡ true → length rows ≡ n)

module _ {F : Type 0} (formats : Formats F) (writes : ℕ → Bool) where
  row_of-IsSafeRow :
      (loaded : Loaded F) (analytics : Result ProctorAnalyticsSummary)
      → IsSafeRow (row_of formats loaded analytics)
  unfolding row_of
  row_of-IsSafeRow loaded analytics =
      let risk : Text = elim analytics [ ok a ↦ risk_text a.risk_level | err e ↦ codes "LOW" ] in
      record {
        ten_cells = refl;
        no_formula = (
          sanitize_csv_cell-is_formula loaded.session.id,
          (
            sanitize_csv_cell-is_formula loaded.session.user_id,
            (sanitize_csv_cell-is_formula risk, tt),
          ),
        );
      }

  rest-Writes :
      (row : List Text) (n : ℕ) (r : Result (List (List Text) × Bool))
      → IsSafeRow row
      → Writes n r
      → Writes (suc n) (put_row row r)
  rest-Writes row n (err e) safe h = tt
  rest-Writes row n (ok (rows, done)) safe (safes, all_there) =
      ((safe, safes), λ d. ap suc (all_there d))

  export_rows-Writes :
      (i : ℕ) (ls : List (Loaded F)) (w : World F)
      → Writes (length ls) (export_rows formats writes i ls w).0
  unfolding export_rows
  export_rows-Writes i [] w = (tt, λ d. refl)
  export_rows-Writes i (loaded ∷ rest) w =
      let x = get_proctor_analytics loaded.session.id w in
      let later = export_rows-Writes (suc i) rest x.1 in
      elim (Bool-cases (writes i)) [
        | inl took ↦ rw took (
            rest-Writes (row_of formats loaded x.0) (length rest)
              (export_rows formats writes (suc i) rest x.1).0 (row_of-IsSafeRow loaded x.0) later)
        | inr refused ↦ rw refused (tt, λ d. cc)
      ]

header-IsSafeRow : IsSafeRow header
unfolding is_formula
header-IsSafeRow = record { ten_cells = refl; no_formula = (refl, (refl, (refl, tt))) }

module _ {F A B : Type 0} (P : Result B → Type 0) (failed : (e : Error) → P (err e)) where
  -- What follows a query runs on what it found, or not at all.
  after_query :
      (f : Db F → A) (g : A → Tx F B) (db : Db F) (fs : List Bool)
      → ((w : World F) → w.db ≡ db → P (g (f db) w).0)
      → P ((query f >>= g) (record { db = db; faults = fs })).0
  unfolding query attempt
  after_query f g db [] h = h (record { db = db; faults = [] }) refl
  after_query f g db (false ∷ fs) h = h (record { db = db; faults = fs }) refl
  after_query f g db (true ∷ fs) h = failed driver

put_header-Writes :
    {F : Type 0} (n : ℕ) (r : Result (List (List Text) × Bool)) (w : World F)
    → Writes n r
    → Writes (suc n) (continue r (λ written. pure (put_header written)) w).0
put_header-Writes n (err e) w h = tt
put_header-Writes n (ok (rows, done)) w (safes, all_there) =
    ((header-IsSafeRow, safes), λ d. ap suc (all_there d))

export_loaded-Writes :
    {F : Type 0} (formats : Formats F) (writes : ℕ → Bool) (ls : List (Loaded F)) (w : World F)
    → Writes (suc (length ls)) (export_loaded formats writes ls w).0
unfolding export_loaded
export_loaded-Writes formats writes ls w = elim (Bool-cases (writes 0)) [
  | inl took ↦ rw took (
      put_header-Writes (length ls) (export_rows formats writes 1 ls w).0
        (export_rows formats writes 1 ls w).1 (export_rows-Writes formats writes 1 ls w))
  | inr refused ↦ rw refused (tt, λ d. cc)
]

-- Of an export, whatever the driver and the writer do, every row written has ten cells and none
-- that a spreadsheet reads as a formula among the session, the user and the risk level, and if the
-- writer took all rows there are the header and one for each session of the delivery.
pub export_delivery_results_csv-Writes :
    {F : Type 0} (formats : Formats F) (writes : ℕ → Bool) (delivery_id : Text) (w : World F)
    → Writes
        (suc (count (λ s. s.delivery_id == delivery_id) w.db.sessions))
        (export_delivery_results_csv formats writes delivery_id w).0
unfolding export_delivery_results_csv
export_delivery_results_csv-Writes formats writes delivery_id w =
    let sessions = sessions_of delivery_id w.db in
    let n = suc (count (λ s. s.delivery_id == delivery_id) w.db.sessions) in
    let rows_each : (db : Db _) → suc (length (with_responses_of sessions db)) ≡ n = λ db.
      ap suc
        (length-map _ sessions ∙ length-filter (λ s. s.delivery_id == delivery_id) w.db.sessions) in
    after_query (Writes n) (λ e. tt) (sessions_of delivery_id)
      (λ ss. query (with_responses_of ss) >>= export_loaded formats writes) w.db w.faults
      (λ w' same.
        after_query (Writes n) (λ e. tt) (with_responses_of sessions) (export_loaded formats writes)
          w'.db w'.faults
          (λ w'' same'.
            subst
              (λ m.
                Writes m (export_loaded formats writes (with_responses_of sessions w'.db) w'').0)
              (rows_each w'.db)
              (export_loaded-Writes formats writes (with_responses_of sessions w'.db) w'')))
