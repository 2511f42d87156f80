-- ===== src/Export/Sessions.antt =====
-- Every session of a delivery has its row in an export, in order.
use tao_core_go.Prelude.{
  ℕ, suc, Text, Bool, true, false, List, [], ◌∷◌, ◌≡◌, ◌⊎◌, All, any, length, codes,
  text_eq_instance, if◌then◌else◌,
}
use tao_core_go.Models.{ProctorAnalyticsSummary}
use tao_core_go.Store.{Db, World, Result, ok, err, driver}
use tao_core_go.Session.Lookup.{Loaded}
use tao_core_go.Proctor.{log_of, summarize}
use tao_core_go.Export.{
  Formats, header, status_text, risk_text, time_text, with_responses_of, sessions_of,
}
use tao_core_go.Export.Cells.{is_formula}
use tao_core_go.Export.Rows.{IsSafeRow}

-- A cell with an apostrophe before what reads as a formula
abbrev pub guarded : Text → Text
guarded value = if is_formula value then 39 ∷ value else value

abbrev pub risk_cell : Result ProctorAnalyticsSummary → Text
risk_cell (ok a) = risk_text a.risk_level
risk_cell (err e) = codes "LOW"

module _ {F : Type 0} (formats : Formats F) where
  abbrev pub tabs_cell : Result ProctorAnalyticsSummary → Text
  tabs_cell (ok a) = formats.number a.total_tab_switches
  tabs_cell (err e) = codes "0"

  -- The cells of a session, with the analytics of its events, or without where they cannot be read
  pub record IsRowOf (db : Db F) (loaded : Loaded F) (row : List Text) : Type 0 where
    pub analytics : Result ProctorAnalyticsSummary
    pub read :
        (analytics ≡ err driver)
        ⊎ (analytics ≡ ok (summarize loaded.session.id (log_of loaded.session.id db)))
    pub cells :
        row
        ≡ guarded loaded.session.id
          ∷ guarded loaded.session.user_id
          ∷ status_text loaded.session.status
          ∷ formats.score loaded.session.total_score
          ∷ formats.number loaded.session.time_spent_seconds
          ∷ guarded (risk_cell analytics)
          ∷ tabs_cell analytics
          ∷ formats.number (length loaded.responses)
          ∷ time_text formats loaded.session.started_at
          ∷ time_text formats loaded.session.finished_at
          ∷ []

module _ {F : Type 0} (formats : Formats F) (writes : ℕ → Bool) (db : Db F) where
  -- One row for each session in order, until the writer refuses the row of that number
  pub data AreRowsOf : ℕ → List (Loaded F) → List (List Text) → Bool → Type 0 where
    all_written : (i : ℕ) → AreRowsOf i [] [] true
    row_written :
        (i : ℕ) (loaded : Loaded F) (rest : List (Loaded F)) (row : List Text)
        (rows : List (List Text)) (done : Bool)
        → writes i ≡ true
        → IsRowOf formats db loaded row
        → AreRowsOf (suc i) rest rows done
        → AreRowsOf i (loaded ∷ rest) (row ∷ rows) done
    row_refused :
        (i : ℕ) (loaded : Loaded F) (rest : List (Loaded F))
        → writes i ≡ false
        → AreRowsOf i (loaded ∷ rest) [] false

  abbrev RowsOf : ℕ → List (Loaded F) → Result (List (List Text) × Bool) → Type 0
  RowsOf i ls (err e) = ⊥
  RowsOf i ls (ok (rows, done)) = AreRowsOf i ls rows done

  -- The header and the rows, unless the writer refuses the header
  pub data IsFile : List (Loaded F) → List (List Text) → Bool → Type 0 where
    header_refused : (ls : List (Loaded F)) → writes 0 ≡ false → IsFile ls [] false
    header_written :
        (ls : List (Loaded F)) (rows : List (List Text)) (done : Bool)
        → writes 0 ≡ true
        → AreRowsOf 1 ls rows done
        → IsFile ls (header ∷ rows) done

  abbrev FileOf : List (Loaded F) → Result (List (List Text) × Bool) → Type 0
  FileOf ls (err e) = ⊥
  FileOf ls (ok (rows, done)) = IsFile ls rows done

abbrev pub Fails : List Bool → Type 0
Fails fs = any (λ b. b) fs ≡ true

module _ {F : Type 0} (formats : Formats F) (writes : ℕ → Bool) (delivery_id : Text)
    (w : World F) where
  -- The file of the sessions of the delivery; no file only where a call of the driver fails.
  abbrev pub Exports : Result (List (List Text) × Bool) → Type 0
  Exports (err e) = (e ≡ driver) × Fails w.faults
  Exports (ok (rows, done)) =
      IsFile formats writes w.db (with_responses_of (sessions_of delivery_id w.db) w.db) rows done

-- No row written has a cell that a user or a client chose and that reads as a formula.
abbrev pub AreSafe : Result (List (List Text) × Bool) → Type 0
AreSafe (err e) = Unit
AreSafe (ok (rows, done)) = All IsSafeRow rows
