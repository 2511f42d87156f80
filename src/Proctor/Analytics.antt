-- ===== src/Proctor/Analytics.antt =====
-- The analysis of a session against what it counts, and how the risk level moves.
use tao_core_go.Prelude.{
  ℕ, ◌+◌, ◌*◌, ◌≤◌, ◌<◌, Text, Bool, true, false, ◌||◌, List, [], ◌∷◌, ◌≡◌, refl, ◌∙◌, ap, arith,
  leb, text_eq_instance, if◌then◌else◌, count, length, All,
}
use tao_core_go.Prelude.Int.{pos, pos_part, ◌+ℤ◌, wrap_int64, wrap_int64_small}
use tao_core_go.Models.{
  tab_switch, focus_lost, screenshot_attempt, copy_attempt, ProctorEvent, RiskLevel, low, medium,
  high, ProctorAnalyticsSummary,
}
use tao_core_go.Proctor.{tally, tally_all, assess, empty_summary, summarize}

abbrev pub is_away : ProctorEvent → Bool
is_away e = elim e.event_type [ tab_switch ↦ true | focus_lost ↦ true | _ ↦ false ]

abbrev pub is_screenshot : ProctorEvent → Bool
is_screenshot e = elim e.event_type [ screenshot_attempt ↦ true | _ ↦ false ]

abbrev pub is_copy : ProctorEvent → Bool
is_copy e = elim e.event_type [ copy_attempt ↦ true | _ ↦ false ]

-- The seconds away that the events report.
unfoldable pub away_seconds : List ProctorEvent → ℕ
away_seconds [] = 0
away_seconds (e ∷ es) = (if is_away e then pos_part e.duration_seconds else 0) + away_seconds es

-- The duration that the service accepts.
abbrev pub HasDuration : ProctorEvent → Type 0
HasDuration e = (n : ℕ) × (e.duration_seconds ≡ pos n) × (n ≤ 86400)

-- The total of that many events stays an `int`.
abbrev pub Fits : List ProctorEvent → Type 0
Fits es = All HasDuration es × (86400 * length es < 9223372036854775808)

-- What the counters hold after a run of the loop, starting from a summary with `k` seconds.
record Counts (s : ProctorAnalyticsSummary) (k : ℕ) (es : List ProctorEvent)
    (s' : ProctorAnalyticsSummary) : Type 0 where
  tabs : s'.total_tab_switches ≡ s.total_tab_switches + count is_away es
  seconds : s'.total_focus_lost_seconds ≡ pos (k + away_seconds es)
  screenshots : s'.total_screenshot_attempts ≡ s.total_screenshot_attempts + count is_screenshot es
  copies : s'.total_copy_attempts ≡ s.total_copy_attempts + count is_copy es
  same_session : s'.session_id ≡ s.session_id

add_seconds : (k n : ℕ) → k + n < 9223372036854775808 → wrap_int64 (pos k +ℤ pos n) ≡ pos (k + n)
unfolding ◌+ℤ◌
add_seconds k n h =
    let sum : pos k +ℤ pos n ≡ pos (k + n) = ground arith in
    ap wrap_int64 sum ∙ wrap_int64_small (k + n) h

tally_tabs :
    (s : ProctorAnalyticsSummary) (e : ProctorEvent)
    → (tally s e).total_tab_switches ≡ s.total_tab_switches + (if is_away e then 1 else 0)
unfolding tally
tally_tabs s e = ground arith

tally_screenshots :
    (s : ProctorAnalyticsSummary) (e : ProctorEvent)
    → (tally s e).total_screenshot_attempts
      ≡ s.total_screenshot_attempts + (if is_screenshot e then 1 else 0)
unfolding tally
tally_screenshots s e = ground arith

tally_copies :
    (s : ProctorAnalyticsSummary) (e : ProctorEvent)
    → (tally s e).total_copy_attempts ≡ s.total_copy_attempts + (if is_copy e then 1 else 0)
unfolding tally
tally_copies s e = ground arith

tally_session :
    (s : ProctorAnalyticsSummary) (e : ProctorEvent) → (tally s e).session_id ≡ s.session_id
unfolding tally
tally_session s e = ground arith

tally_seconds :
    (s : ProctorAnalyticsSummary) (k n : ℕ) (e : ProctorEvent)
    → s.total_focus_lost_seconds ≡ pos k
    → e.duration_seconds ≡ pos n
    → k + n < 9223372036854775808
    → (tally s e).total_focus_lost_seconds
      ≡ pos (k + (if is_away e then pos_part e.duration_seconds else 0))
unfolding tally
tally_seconds s k n e hk hn h = ground (arith, add_seconds k n h)

tally_all-Counts :
    (s : ProctorAnalyticsSummary) (k : ℕ) (es : List ProctorEvent)
    → s.total_focus_lost_seconds ≡ pos k
    → All HasDuration es
    → k + 86400 * length es < 9223372036854775808
    → Counts s k es (tally_all s es)
unfolding tally_all count away_seconds
tally_all-Counts s k [] hk ds h = record {
  tabs = omega arith;
  seconds = ground (arith, hk);
  screenshots = omega arith;
  copies = omega arith;
  same_session = refl;
}
tally_all-Counts s k (e ∷ es) hk ((n, hn, small), ds) h =
    let here = if is_away e then pos_part e.duration_seconds else 0 in
    let bounded : here ≤ 86400 = ground (arith, hn, small) in
    let later =
      tally_all-Counts (tally s e) (k + here) es
        (tally_seconds s k n e hk hn (omega (arith, small, h))) ds (omega (arith, bounded, h)) in
    record {
      tabs = omega (arith, later.tabs, tally_tabs s e);
      seconds = later.seconds ∙ ap pos (omega arith);
      screenshots = omega (arith, later.screenshots, tally_screenshots s e);
      copies = omega (arith, later.copies, tally_copies s e);
      same_session = later.same_session ∙ tally_session s e;
    }

-- The risk that the numbers stand for.
abbrev pub risk_of : ℕ → ℕ → ℕ → ℕ → RiskLevel
risk_of tabs seconds copies screenshots =
    if leb 5 tabs || leb 120 seconds || leb 3 copies || leb 3 screenshots
    then high
    else if leb 2 tabs || leb 30 seconds || leb 1 copies || leb 1 screenshots
    then medium
    else low

abbrev pub risk_of_events : List ProctorEvent → RiskLevel
risk_of_events es =
    risk_of (count is_away es) (away_seconds es) (count is_copy es) (count is_screenshot es)

assess_lem :
    (s : ProctorAnalyticsSummary) (tabs seconds copies screenshots : ℕ)
    → s.total_tab_switches ≡ tabs
    → s.total_focus_lost_seconds ≡ pos seconds
    → s.total_copy_attempts ≡ copies
    → s.total_screenshot_attempts ≡ screenshots
    → assess s ≡ risk_of tabs seconds copies screenshots
unfolding assess
assess_lem s tabs seconds copies screenshots et es ec ei = rw (et, es, ec, ei) (ground arith)

-- For events with durations of at most a day and not so many that the seconds leave a 64-bit
-- integer, the summary counts the events of each kind, adds up the seconds away without overflow,
-- and has the risk level of these numbers.
pub summarize_lem :
    (session_id : Text) (es : List ProctorEvent)
    → Fits es
    → summarize session_id es ≡ record {
      session_id = session_id;
      total_tab_switches = count is_away es;
      total_focus_lost_seconds = pos (away_seconds es);
      total_screenshot_attempts = count is_screenshot es;
      total_copy_attempts = count is_copy es;
      risk_level = risk_of_events es;
    }
unfolding summarize
summarize_lem session_id es fits =
    let c = tally_all-Counts (empty_summary session_id) 0 es refl fits.0 (omega (arith, fits.1)) in
    let s = tally_all (empty_summary session_id) es in
    let tabs : s.total_tab_switches ≡ count is_away es = omega (arith, c.tabs) in
    let seconds : s.total_focus_lost_seconds ≡ pos (away_seconds es) =
      c.seconds ∙ ap pos (omega arith) in
    let screenshots : s.total_screenshot_attempts ≡ count is_screenshot es =
      omega (arith, c.screenshots) in
    let copies : s.total_copy_attempts ≡ count is_copy es = omega (arith, c.copies) in
    λ i. record {
      session_id = c.same_session i;
      total_tab_switches = tabs i;
      total_focus_lost_seconds = seconds i;
      total_screenshot_attempts = screenshots i;
      total_copy_attempts = copies i;
      risk_level = assess_lem s _ _ _ _ tabs seconds copies screenshots i;
    }

abbrev pub rank : RiskLevel → ℕ
rank low = 0
rank medium = 1
rank high = 2

-- More of everything is never a lower risk.
pub risk_of_monotone :
    (t k c s t' k' c' s' : ℕ)
    → t ≤ t'
    → k ≤ k'
    → c ≤ c'
    → s ≤ s'
    → rank (risk_of t k c s) ≤ rank (risk_of t' k' c' s')
risk_of_monotone t k c s t' k' c' s' ht hk hc hs = ground arith
