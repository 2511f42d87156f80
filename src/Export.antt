-- ===== src/Export.antt =====
-- internal/service/results_export_service.go: the rows of the results of a delivery. The writer of
-- encoding/csv and fmt's formats are parameters.
mod Tests
pub mod Cells
pub mod Rows
pub mod Sessions
use tao_core_go.Prelude.{
  ℕ, suc, Text, Bool, true, false, ◌||◌, Option, none, some, List, [], ◌∷◌, length, eqb, codes,
  ◌==◌, text_eq_instance, if◌then◌else◌, filter, map,
}
use tao_core_go.Prelude.Int.{ℤ, pos}
use tao_core_go.Text.{trim_left}
use tao_core_go.Models.{
  SessionStatus, not_started, in_progress, paused, completed, TestSession, RiskLevel, low, medium,
  high, ProctorAnalyticsSummary,
}
use tao_core_go.Store.{Db, Tx, Result, ok, err, World, pure, query, ◌>>=◌}
use tao_core_go.Session.Lookup.{Loaded, responses_of}
use tao_core_go.Proctor.{get_proctor_analytics}

-- The characters " \t\r\n"
abbrev pub is_cell_blank : ℕ → Bool
is_cell_blank c = eqb c 32 || eqb c 9 || eqb c 13 || eqb c 10

abbrev pub starts_formula : ℕ → Bool
starts_formula c = eqb c b'=' || eqb c b'+' || eqb c b'-' || eqb c b'@'

-- `sanitizeCSVCell`
unfoldable pub sanitize_csv_cell : Text → Text
unfolding trim_left
sanitize_csv_cell value = elim (trim_left is_cell_blank value) [
  | [] ↦ value
  | c ∷ rest ↦ if starts_formula c then 39 ∷ value else value
]

-- fmt.Sprintf with "%.2f" and "%d", and Time.Format
pub record Formats (F : Type 0) : Type 0 where
  pub score : F → Text
  pub number : ℕ → Text
  pub time : ℕ → Text

abbrev pub status_text : SessionStatus → Text
status_text not_started = codes "NOT_STARTED"
status_text in_progress = codes "IN_PROGRESS"
status_text paused = codes "PAUSED"
status_text completed = codes "COMPLETED"

abbrev pub risk_text : RiskLevel → Text
risk_text low = codes "LOW"
risk_text medium = codes "MEDIUM"
risk_text high = codes "HIGH"

abbrev pub header : List Text
header =
    codes "SessionID"
    ∷ codes "UserID"
    ∷ codes "Status"
    ∷ codes "TotalScore"
    ∷ codes "TimeSpentSeconds"
    ∷ codes "RiskLevel"
    ∷ codes "TotalTabSwitches"
    ∷ codes "TotalResponsesCount"
    ∷ codes "StartedAt"
    ∷ codes "FinishedAt"
    ∷ []

abbrev pub put_row : List Text → Result (List (List Text) × Bool) → Result (List (List Text) × Bool)
put_row row (ok (rows, done)) = ok (row ∷ rows, done)
put_row row (err e) = err e

abbrev pub put_header : List (List Text) × Bool → List (List Text) × Bool
put_header (rows, done) = (header ∷ rows, done)

module _ {F : Type 0} where
  abbrev pub time_text : Formats F → Option ℕ → Text
  time_text formats none = []
  time_text formats (some t) = formats.time t

  -- One row; without analytics it says LOW and 0.
  unfoldable pub row_of : Formats F → Loaded F → Result ProctorAnalyticsSummary → List Text
  unfolding sanitize_csv_cell
  row_of formats loaded analytics =
      let s = loaded.session in
      let risk : Text = elim analytics [ ok a ↦ risk_text a.risk_level | err e ↦ codes "LOW" ] in
      let tabs : Text = elim analytics [
        | ok a ↦ formats.number a.total_tab_switches
        | err e ↦ codes "0"
      ] in
      sanitize_csv_cell s.id
      ∷ sanitize_csv_cell s.user_id
      ∷ status_text s.status
      ∷ formats.score s.total_score
      ∷ formats.number s.time_spent_seconds
      ∷ sanitize_csv_cell risk
      ∷ tabs
      ∷ formats.number (length loaded.responses)
      ∷ time_text formats s.started_at
      ∷ time_text formats s.finished_at
      ∷ []

  -- The loop; `writes` says whether the writer takes the row of that number. The rows written, and
  -- whether it took them all.
  unfoldable pub export_rows :
      Formats F → (ℕ → Bool) → ℕ → List (Loaded F) → Tx F (List (List Text) × Bool)
  unfolding get_proctor_analytics row_of
  export_rows formats writes i [] w = (ok ([], true), w)
  export_rows formats writes i (loaded ∷ rest) w =
      let (analytics, w') = get_proctor_analytics loaded.session.id w in
      let later = export_rows formats writes (suc i) rest w' in
      if writes i
      then (put_row (row_of formats loaded analytics) later.0, later.1)
      else (ok ([], false), w')

  abbrev pub with_responses_of : List (TestSession F) → Db F → List (Loaded F)
  with_responses_of sessions db =
      map (λ (s : TestSession F). record { session = s; responses = responses_of s.id db }) sessions

  -- The header first, then the rows.
  unfoldable pub export_loaded :
      Formats F → (ℕ → Bool) → List (Loaded F) → Tx F (List (List Text) × Bool)
  unfolding export_rows
  export_loaded formats writes loaded =
      if writes 0
      then (export_rows formats writes 1 loaded >>= λ written. pure (put_header written))
      else pure ([], false)

  abbrev pub sessions_of : Text → Db F → List (TestSession F)
  sessions_of delivery_id db = filter (λ s. s.delivery_id == delivery_id) db.sessions

  -- `ExportDeliveryResultsCSV`: the rows written, and whether the writer took them all.
  unfoldable pub export_delivery_results_csv :
      Formats F → (ℕ → Bool) → Text → Tx F (List (List Text) × Bool)
  unfolding export_loaded query
  export_delivery_results_csv formats writes delivery_id =
      query (sessions_of delivery_id) >>= λ sessions.
      query (with_responses_of sessions) >>= export_loaded formats writes
