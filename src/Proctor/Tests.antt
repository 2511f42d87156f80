-- ===== src/Proctor/Tests.antt =====
-- Proctoring at work on one session.
use tao_core_go.Prelude.{ℕ, ◌≤◌, none, some, [], ◌∷◌, ◌≡◌, refl, arith, codes, All, count}
use tao_core_go.Prelude.Int.{pos}
use tao_core_go.Models.{in_progress, TestSession, tab_switch, copy_attempt, ProctorEvent}
use tao_core_go.Store.{Db, quiet}
use tao_core_go.Store.Faults.{Outcome}
use tao_core_go.Session.{Env}
use tao_core_go.Text.{len}
use tao_core_go.Proctor.{record_event, summarize, log_of, valid_proctor_event_type}
use tao_core_go.Proctor.Events.{
  Refused, IsRecorded, IsSound, record_event-Records, record_event-IsSound,
}
use tao_core_go.Proctor.Analytics.{
  is_away, is_screenshot, is_copy, away_seconds, risk_of_events, rank, Fits, summarize_lem,
}
use tao_core_go.Proctor.Risk.{risk_level_monotone}

abbrev session : TestSession ℕ
session = record {
  id = codes "s1";
  delivery_id = codes "d1";
  user_id = codes "ann";
  attempt = 1;
  status = in_progress;
  time_spent_seconds = 0;
  total_score = 0;
  started_at = some 1;
  finished_at = none;
}

abbrev left_page : ProctorEvent
left_page = record {
  id = codes "e1";
  session_id = codes "s1";
  event_type = tab_switch;
  duration_seconds = pos 40;
  details = codes " tab ";
  created_at = 5;
}

abbrev copied : ProctorEvent
copied = record left_page {
  id = [];
  event_type = copy_attempt;
  duration_seconds = pos 0;
  created_at = 0;
}

abbrev tables : Db ℕ
tables = record {
  deliveries = [];
  tests = [];
  test_sections = [];
  test_items = [];
  items = [];
  delivery_groups = [];
  user_groups = [];
  sessions = session ∷ [];
  responses = [];
  proctor_events = left_page ∷ [];
  lti = record { platforms = []; states = []; resource_links = []; link_sessions = [] };
  webhooks = record { configs = []; logs = [] };
}

abbrev env : Env
env = record { checked_at = 9; now = 9; new_id = codes "e2" }

left_page-IsSound : IsSound left_page
unfolding valid_proctor_event_type len
left_page-IsSound = record { known = refl; lasting = (40, refl, omega arith); short = omega arith }

record_event-Records_example :
    Outcome tables
      (Refused env copied (codes "ann") tables)
      (IsRecorded env copied (codes "ann") tables)
      (record_event env copied (codes "ann") (quiet tables)).0
      (record_event env copied (codes "ann") (quiet tables)).1.db
record_event-Records_example = record_event-Records env copied (codes "ann") (quiet tables)

record_event-IsSound_example :
    All IsSound (record_event env copied (codes "ann") (quiet tables)).1.db.proctor_events
record_event-IsSound_example =
    record_event-IsSound env copied (codes "ann") (quiet tables) (left_page-IsSound, tt)

one_Fits : Fits (left_page ∷ [])
one_Fits = (((40, refl, omega arith), tt), omega arith)

two_Fits : Fits (left_page ∷ copied ∷ [])
two_Fits = (((40, refl, omega arith), ((0, refl, omega arith), tt)), omega arith)

summarize_lem_example : summarize (codes "s1") (left_page ∷ copied ∷ []) ≡ record {
  session_id = codes "s1";
  total_tab_switches = count is_away (left_page ∷ copied ∷ []);
  total_focus_lost_seconds = pos (away_seconds (left_page ∷ copied ∷ []));
  total_screenshot_attempts = count is_screenshot (left_page ∷ copied ∷ []);
  total_copy_attempts = count is_copy (left_page ∷ copied ∷ []);
  risk_level = risk_of_events (left_page ∷ copied ∷ []);
}
summarize_lem_example = summarize_lem (codes "s1") (left_page ∷ copied ∷ []) two_Fits

risk_level_monotone_example :
    rank (summarize (codes "s1") (log_of (codes "s1") tables)).risk_level
    ≤ rank
        (summarize (codes "s1") (
          log_of
            (codes "s1")
            (record tables { proctor_events = left_page ∷ copied ∷ [] }))).risk_level
risk_level_monotone_example = risk_level_monotone (codes "s1") tables copied one_Fits two_Fits
