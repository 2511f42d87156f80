-- ===== src/Proctor.antt =====
-- internal/service/proctor_service.go: events that watch a session, and the risk they add up to.
pub mod Events
pub mod Analytics
pub mod Risk
mod Tests
use tao_core_go.Prelude.{
  ℕ, ◌+◌, Text, Bool, true, false, not, ◌||◌, ◌&&◌, none, some, List, [], ◌∷◌, ◌++◌, ltb, leb, ◌==◌,
  nat_eq, text_eq_instance, if◌then◌else◌, find, filter, any,
}
use tao_core_go.Prelude.Int.{ℤ, pos, negsuc, ◌+ℤ◌, wrap_int64, ltb_ℤ, leb_ℤ}
use tao_core_go.Text.{trim_space, is_empty, len}
use tao_core_go.Models.{
  SessionStatus, in_progress, status_eq_instance, ProctorEventType, tab_switch, focus_lost,
  screenshot_attempt, copy_attempt, fullscreen_exit, other_event, ProctorEvent, RiskLevel, low,
  medium, high, ProctorAnalyticsSummary,
}
use tao_core_go.Store.{
  Db, Tx, ok, err, Error, session_not_active, invalid_proctor_event, duplicated_key, pure, raise,
  query, write, ◌>>=◌, ◌>>◌,
}
use tao_core_go.Session.{Env}
use tao_core_go.Session.Lookup.{find_owned}

-- `validProctorEventType`
unfoldable pub valid_proctor_event_type : ProctorEventType → Bool
valid_proctor_event_type tab_switch = true
valid_proctor_event_type focus_lost = true
valid_proctor_event_type screenshot_attempt = true
valid_proctor_event_type copy_attempt = true
valid_proctor_event_type fullscreen_exit = true
valid_proctor_event_type (other_event t) = false

-- The test of the content of an event.
unfoldable pub is_invalid : ProctorEvent → Bool
unfolding valid_proctor_event_type len
is_invalid event =
    not (valid_proctor_event_type event.event_type)
    || ltb_ℤ event.duration_seconds (pos 0)
    || ltb_ℤ (pos 86400) event.duration_seconds
    || ltb 4096 (len event.details)

-- The event as it is stored: an identifier and a time where it has none.
unfoldable pub prepare : Env → ProctorEvent → ProctorEvent
unfolding trim_space
prepare env event = record event {
  details = trim_space event.details;
  id = if is_empty event.id then env.new_id else event.id;
  created_at = if event.created_at == 0 then env.now else event.created_at;
}

module _ {F : Type 0} where
  unfoldable pub create_event : ProctorEvent → Tx F Unit
  unfolding write
  create_event event = write (λ db.
      if any (λ e. e.id == event.id) db.proctor_events
      then err duplicated_key
      else ok (tt, record db { proctor_events = db.proctor_events ++ event ∷ [] }))

  -- The event comes back with what was filled in.
  unfoldable pub record_event : Env → ProctorEvent → Text → Tx F ProctorEvent
  unfolding find_owned is_invalid prepare create_event
  record_event env event user_id = do
    session ← find_owned event.session_id user_id
    if session.status == in_progress
        then (do
          if is_invalid event
              then raise invalid_proctor_event
              else do create_event (prepare env event); pure (prepare env event))
        else raise session_not_active

-- Order("created_at ASC"), with events of the same time in the order of the table
unfoldable pub insert_by_time : ProctorEvent → List ProctorEvent → List ProctorEvent
insert_by_time e [] = e ∷ []
insert_by_time e (f ∷ fs) =
    let rest = insert_by_time e fs in if leb e.created_at f.created_at then e ∷ f ∷ fs else f ∷ rest

unfoldable pub by_time : List ProctorEvent → List ProctorEvent
unfolding insert_by_time
by_time [] = []
by_time (e ∷ es) = insert_by_time e (by_time es)

unfoldable pub log_of : {F : Type 0} → Text → Db F → List ProctorEvent
unfolding by_time
log_of session_id db = by_time (filter (λ e. e.session_id == session_id) db.proctor_events)

unfoldable pub get_session_proctor_log : {F : Type 0} → Text → Tx F (List ProctorEvent)
unfolding log_of query
get_session_proctor_log session_id = query (log_of session_id)

-- One turn of the loop over the events.
unfoldable pub tally : ProctorAnalyticsSummary → ProctorEvent → ProctorAnalyticsSummary
unfolding wrap_int64 ◌+ℤ◌
tally s e = elim e.event_type [
  | screenshot_attempt ↦ record s { total_screenshot_attempts = s.total_screenshot_attempts + 1 }
  | copy_attempt ↦ record s { total_copy_attempts = s.total_copy_attempts + 1 }
  | fullscreen_exit ↦ s
  | other_event t ↦ s
  | _ ↦ record s {
    total_tab_switches = s.total_tab_switches + 1;
    total_focus_lost_seconds = wrap_int64 (s.total_focus_lost_seconds +ℤ e.duration_seconds);
  }
]

unfoldable pub tally_all : ProctorAnalyticsSummary → List ProctorEvent → ProctorAnalyticsSummary
unfolding tally
tally_all s [] = s
tally_all s (e ∷ es) = tally_all (tally s e) es

-- The thresholds of the risk level.
unfoldable pub assess : ProctorAnalyticsSummary → RiskLevel
assess s =
    if leb 5 s.total_tab_switches
      || leb_ℤ (pos 120) s.total_focus_lost_seconds
      || leb 3 s.total_copy_attempts
      || leb 3 s.total_screenshot_attempts
    then high
    else if leb 2 s.total_tab_switches
        || leb_ℤ (pos 30) s.total_focus_lost_seconds
        || leb 1 s.total_copy_attempts
        || leb 1 s.total_screenshot_attempts
    then medium
    else low

abbrev pub empty_summary : Text → ProctorAnalyticsSummary
empty_summary session_id = record {
  session_id = session_id;
  total_tab_switches = 0;
  total_focus_lost_seconds = pos 0;
  total_screenshot_attempts = 0;
  total_copy_attempts = 0;
  risk_level = low;
}

unfoldable pub summarize : Text → List ProctorEvent → ProctorAnalyticsSummary
unfolding tally_all assess
summarize session_id events =
    let s = tally_all (empty_summary session_id) events in record s { risk_level = assess s }

unfoldable pub get_proctor_analytics : {F : Type 0} → Text → Tx F ProctorAnalyticsSummary
unfolding get_session_proctor_log summarize
get_proctor_analytics session_id = do
  events ← get_session_proctor_log session_id
  pure (summarize session_id events)
