-- ===== src/Export/Tests.antt =====
-- An export of one session whose user's name reads as a formula.
use tao_core_go.Prelude.{ℕ, none, [], ◌∷◌, ◌≡◌, codes, if◌then◌else◌}
use tao_core_go.Models.{completed, TestSession}
use tao_core_go.Store.{Db}
use tao_core_go.Export.{Formats, sanitize_csv_cell}
use tao_core_go.Export.Cells.{is_formula, sanitize_csv_cell_lem}

abbrev formats : Formats ℕ
formats = record { score = λ x. x ∷ []; number = λ x. x ∷ []; time = λ x. x ∷ [] }

abbrev session : TestSession ℕ
session = record {
  id = codes "s1";
  delivery_id = codes "d1";
  user_id = codes " =1+1";
  attempt = 1;
  status = completed;
  time_spent_seconds = 0;
  total_score = 0;
  started_at = none;
  finished_at = none;
}

abbrev tables : Db ℕ
tables = record {
  deliveries = [];
  tests = [];
  test_sections = [];
  test_items = [];
  items = [];
  delivery_groups = [];
  user_groups = [];
  sessions = session ∷ [];
  responses = [];
  proctor_events = [];
  lti = record { platforms = []; states = []; resource_links = []; link_sessions = [] };
  webhooks = record { configs = []; logs = [] };
}

sanitize_csv_cell_lem_example :
    sanitize_csv_cell (codes " =1")
    ≡ (if is_formula (codes " =1") then 39 ∷ codes " =1" else codes " =1")
sanitize_csv_cell_lem_example = sanitize_csv_cell_lem (codes " =1")
