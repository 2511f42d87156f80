-- ===== src/Proctor/Risk.antt =====
-- The analysis of the log of a session in terms of the table, and the risk after one more event.
use tao_core_go.Prelude.{
  ◌≤◌, Text, Bool, true, false, List, [], ◌∷◌, ◌++◌, ◌≡◌, refl, ◌∙◌, ap, arith, leb, ◌==◌,
  text_eq_instance, if◌then◌else◌, filter, count, length, All,
}
use tao_core_go.Models.{ProctorEvent}
use tao_core_go.Store.{Db}
use tao_core_go.Proctor.{insert_by_time, by_time, log_of, summarize}
use tao_core_go.Proctor.Analytics.{
  is_away, is_screenshot, is_copy, away_seconds, HasDuration, Fits, risk_of_events,
  risk_of_monotone, rank, summarize_lem,
}

module _ (p : ProctorEvent → Bool) where
  count-insert_by_time :
      (e : ProctorEvent) (es : List ProctorEvent) → count p (insert_by_time e es) ≡ count p (e ∷ es)
  unfolding insert_by_time count
  count-insert_by_time e [] = refl
  count-insert_by_time e (f ∷ fs) = ground (arith, count-insert_by_time e fs)

  count-by_time : (es : List ProctorEvent) → count p (by_time es) ≡ count p es
  unfolding by_time count
  count-by_time [] = refl
  count-by_time (e ∷ es) = omega (arith, count-insert_by_time e (by_time es), count-by_time es)

seconds-insert_by_time :
    (e : ProctorEvent) (es : List ProctorEvent)
    → away_seconds (insert_by_time e es) ≡ away_seconds (e ∷ es)
unfolding insert_by_time away_seconds
seconds-insert_by_time e [] = refl
seconds-insert_by_time e (f ∷ fs) = ground (arith, seconds-insert_by_time e fs)

seconds-by_time : (es : List ProctorEvent) → away_seconds (by_time es) ≡ away_seconds es
unfolding by_time away_seconds
seconds-by_time [] = refl
seconds-by_time (e ∷ es) = omega (arith, seconds-insert_by_time e (by_time es), seconds-by_time es)

length-insert_by_time :
    (e : ProctorEvent) (es : List ProctorEvent) → length (insert_by_time e es) ≡ length (e ∷ es)
unfolding insert_by_time
length-insert_by_time e [] = refl
length-insert_by_time e (f ∷ fs) = ground (arith, length-insert_by_time e fs)

length-by_time : (es : List ProctorEvent) → length (by_time es) ≡ length es
unfolding by_time
length-by_time [] = refl
length-by_time (e ∷ es) = omega (arith, length-insert_by_time e (by_time es), length-by_time es)

module _ (P : ProctorEvent → Type 0) where
  All-insert_by_time :
      (e : ProctorEvent) (es : List ProctorEvent) → P e → All P es → All P (insert_by_time e es)
  unfolding insert_by_time
  All-insert_by_time e [] h hs = (h, tt)
  All-insert_by_time e (f ∷ fs) h (k, hs) =
      let later = All-insert_by_time e fs h hs in
      elim (leb e.created_at f.created_at)
        as (λ b. All P (if b then e ∷ f ∷ fs else f ∷ insert_by_time e fs)) [
          | true ↦ (h, (k, hs))
          | false ↦ (k, later)
        ]

  All-by_time : (es : List ProctorEvent) → All P es → All P (by_time es)
  unfolding by_time
  All-by_time [] hs = tt
  All-by_time (e ∷ es) (h, hs) = All-insert_by_time e (by_time es) h (All-by_time es hs)

module _ (session_id : Text) where
  abbrev mine : ProctorEvent → Bool
  mine e = e.session_id == session_id

  All-mine :
      (P : ProctorEvent → Type 0) (es : List ProctorEvent) → All P es → All P (filter mine es)
  unfolding filter
  All-mine P [] hs = tt
  All-mine P (e ∷ es) (h, hs) =
      let later = All-mine P es hs in
      elim (mine e) as (λ b. All P (if b then e ∷ filter mine es else filter mine es)) [
        | true ↦ (h, later)
        | false ↦ later
      ]

  length-mine : (es : List ProctorEvent) → length (filter mine es) ≤ length es
  unfolding filter
  length-mine [] = omega arith
  length-mine (e ∷ es) = ground (arith, length-mine es)

  -- One more event makes no count smaller.
  mine-append_le :
      (p : ProctorEvent → Bool) (es : List ProctorEvent) (e : ProctorEvent)
      → count p (filter mine es) ≤ count p (filter mine (es ++ e ∷ []))
  unfolding filter count
  mine-append_le p [] e = omega arith
  mine-append_le p (f ∷ fs) e = ground (arith, mine-append_le p fs e)

  mine-append_seconds :
      (es : List ProctorEvent) (e : ProctorEvent)
      → away_seconds (filter mine es) ≤ away_seconds (filter mine (es ++ e ∷ []))
  unfolding filter away_seconds
  mine-append_seconds [] e = omega arith
  mine-append_seconds (f ∷ fs) e = ground (arith, mine-append_seconds fs e)

  module _ {F : Type 0} (db : Db F) where
    log_of-Fits : Fits db.proctor_events → Fits (log_of session_id db)
    unfolding log_of
    log_of-Fits (durations, small) = (
      All-by_time HasDuration (filter mine db.proctor_events)
          (All-mine HasDuration db.proctor_events durations),
      omega (
        arith,
        small,
        length-mine db.proctor_events,
        length-by_time (filter mine db.proctor_events),
      ),
    )

    log_of-count :
        (p : ProctorEvent → Bool)
        → count p (log_of session_id db) ≡ count p (filter mine db.proctor_events)
    unfolding log_of
    log_of-count p = count-by_time p (filter mine db.proctor_events)

    log_of-seconds :
        away_seconds (log_of session_id db) ≡ away_seconds (filter mine db.proctor_events)
    unfolding log_of
    log_of-seconds = seconds-by_time (filter mine db.proctor_events)

    -- The risk level is that of the session's events, in whatever order they came.
    risk_of_log :
        Fits db.proctor_events
        → (summarize session_id (log_of session_id db)).risk_level
          ≡ risk_of_events (filter mine db.proctor_events)
    risk_of_log fits =
        ap (λ s. s.risk_level) (summarize_lem session_id (log_of session_id db) (log_of-Fits fits))
        ∙ rw
            (log_of-count is_away, log_of-seconds, log_of-count is_copy, log_of-count is_screenshot)
            refl

-- For tables of events with durations of at most a day, too few to leave a 64-bit integer, one
-- more event, of this session or another and at any time, never lowers the risk level of a
-- session.
pub risk_level_monotone :
    {F : Type 0} (session_id : Text) (db : Db F) (e : ProctorEvent)
    → Fits db.proctor_events
    → Fits (db.proctor_events ++ e ∷ [])
    → rank (summarize session_id (log_of session_id db)).risk_level
      ≤ rank
          (summarize session_id (
            log_of session_id
              (record db { proctor_events = db.proctor_events ++ e ∷ [] }))).risk_level
risk_level_monotone session_id db e fits fits' =
    rw
      (
        risk_of_log session_id db fits,
        risk_of_log session_id (record db { proctor_events = db.proctor_events ++ e ∷ [] }) fits',
      )
      (risk_of_monotone _ _ _ _ _ _ _ _ (mine-append_le session_id is_away db.proctor_events e)
        (mine-append_seconds session_id db.proctor_events e)
        (mine-append_le session_id is_copy db.proctor_events e)
        (mine-append_le session_id is_screenshot db.proctor_events e))
