-- ===== src/Proctor/Events.antt =====
-- What recording an event does, and that every stored event is well-formed.
use mathlib.Core.Path.{subst}
use tao_core_go.Prelude.{
  ℕ, ◌≤◌, Text, Bool, true, false, ◌&&◌, none, some, [], ◌∷◌, ◌++◌, ◌≡◌, ◌≢◌, refl, sym, inl, inr,
  arith, ◌==◌, nat_eq, text_eq_instance, if◌then◌else◌, find, any, All, All-append, Bool-cases,
  Option-cases,
}
use tao_core_go.Prelude.Int.{ℤ, pos, negsuc, ltb_ℤ}
use tao_core_go.Text.{trim_space, trim_left, trim_right, is_space, is_empty, len}
use tao_core_go.Models.{in_progress, status_eq_instance, ProctorEvent, TestSession}
use tao_core_go.Store.{
  Db, World, Result, ok, err, Error, session_not_found, session_not_active, invalid_proctor_event,
  duplicated_key, quiet,
}
use tao_core_go.Store.Faults.{IsRobust, Body, Outcome, robust_rules}
use tao_core_go.Store.Atomic.{
  IsAtomic, IsAtomic-raise, IsAtomic-write, IsReadOnly-first, IsAtomic-if, IsAtomic-read,
  IsAtomic-map, atomic-Outcome, Outcome-keeps,
}
use tao_core_go.Session.{Env}
use tao_core_go.Session.Lookup.{owned, find_owned}
use tao_core_go.Proctor.{valid_proctor_event_type, is_invalid, prepare, create_event, record_event}

module _ {F : Type 0} (env : Env) (event : ProctorEvent) (uid : Text) where
  create-IsAtomic : IsAtomic {F = F} (create_event event)
  unfolding create_event
  create-IsAtomic = IsAtomic-write _

  record_event-IsRobust : IsRobust {F = F} (record_event env event uid)
  unfolding record_event find_owned create_event
  record_event-IsRobust = search robust_rules

  record_event-IsAtomic : IsAtomic {F = F} (record_event env event uid)
  unfolding record_event find_owned create_event
  record_event-IsAtomic = IsAtomic-read _ _ (IsReadOnly-first _ _) (λ session.
      IsAtomic-if _ _ _ (IsAtomic-if _ _ _ (IsAtomic-raise _) (IsAtomic-map _ _ (IsAtomic-write _)))
        (IsAtomic-raise _))

  module _ (db : Db F) where
    -- Why an event is refused.
    pub data Refused : Error → Type 0 where
      unknown : find (owned event.session_id uid) db.sessions ≡ none → Refused session_not_found
      inactive :
          (s : TestSession F)
          → find (owned event.session_id uid) db.sessions ≡ some s
          → s.status ≢ in_progress
          → Refused session_not_active
      unusable : is_invalid event ≡ true → Refused invalid_proctor_event
      id_taken :
          any (λ e. e.id == (prepare env event).id) db.proctor_events ≡ true
          → Refused duplicated_key

    -- An accepted event is stored last, as it is returned.
    pub record IsRecorded (stored : ProctorEvent) (db' : Db F) : Type 0 where
      pub session : TestSession F
      pub found : find (owned event.session_id uid) db.sessions ≡ some session
      pub active : session.status ≡ in_progress
      pub usable : is_invalid event ≡ false
      pub prepared : stored ≡ prepare env event
      pub unused : any (λ e. e.id == stored.id) db.proctor_events ≡ false
      pub updated : db' ≡ record db { proctor_events = db.proctor_events ++ stored ∷ [] }

    abbrev Ends : Result ProctorEvent × World F → Type 0
    Ends x = Body Refused IsRecorded x.0 x.1.db

    record_missing :
        find (owned event.session_id uid) db.sessions ≡ none
        → record_event env event uid (quiet db) ≡ (err session_not_found, quiet db)
    unfolding record_event
    record_missing e = ground arith

    record_found :
        (s : TestSession F)
        → find (owned event.session_id uid) db.sessions ≡ some s
        → record_event env event uid (quiet db) ≡ (
            if s.status == in_progress
            then (if is_invalid event
                then (err invalid_proctor_event, quiet db)
                else if any (λ e. e.id == (prepare env event).id) db.proctor_events
                then (err duplicated_key, quiet db)
                else (
                  ok (prepare env event),
                  quiet
                      (record db { proctor_events = db.proctor_events ++ prepare env event ∷ [] }),
                ))
            else (err session_not_active, quiet db))
    unfolding record_event
    record_found s e = ground arith

    found-Ends :
        (s : TestSession F)
        → find (owned event.session_id uid) db.sessions ≡ some s
        → Ends (record_event env event uid (quiet db))
    found-Ends s found = elim (Bool-cases (s.status == in_progress)) [
      | inr idle ↦ rw (record_found s found, idle) (inactive s found (ground arith))
      | inl active ↦ elim (Bool-cases (is_invalid event)) [
        | inl bad ↦ rw (record_found s found, active, bad) (unusable bad)
        | inr good ↦
            elim (Bool-cases (any (λ e. e.id == (prepare env event).id) db.proctor_events)) [
              | inl taken ↦ rw (record_found s found, active, good, taken) (id_taken taken)
              | inr unused ↦
                  rw (record_found s found, active, good, unused)
                    (record {
                      session = s;
                      found = found;
                      active = ground arith;
                      usable = good;
                      prepared = refl;
                      unused = unused;
                      updated = refl;
                    })
            ]
      ]
    ]

    record_event-Ends : Ends (record_event env event uid (quiet db))
    record_event-Ends = elim (Option-cases (find (owned event.session_id uid) db.sessions)) [
      | inl missing ↦ rw (record_missing missing) (unknown missing)
      | inr (s, found) ↦ found-Ends s found
    ]

  -- The outcomes of recording an event, for every plan of driver faults: the driver's error or a
  -- refusal with its reason, both with the tables unchanged, or the prepared event stored last,
  -- for a usable event of the user's session in progress.
  pub record_event-Records :
      (w : World F)
      → Outcome w.db
          (Refused w.db)
          (IsRecorded w.db)
          (record_event env event uid w).0
          (record_event env event uid w).1.db
  record_event-Records w =
      atomic-Outcome (record_event env event uid) _ _ record_event-IsRobust record_event-IsAtomic w
        (record_event-Ends w.db)

-- A stored event has a known type, a duration of at most a day and details of at most 4096 bytes.
pub record IsSound (e : ProctorEvent) : Type 0 where
  pub known : valid_proctor_event_type e.event_type ≡ true
  pub lasting : (n : ℕ) × (e.duration_seconds ≡ pos n) × (n ≤ 86400)
  pub short : len e.details ≤ 4096

len-trim_left : (p : ℕ → Bool) (s : Text) → len (trim_left p s) ≤ len s
unfolding trim_left len
len-trim_left p [] = omega arith
len-trim_left p (c ∷ s) = ground (arith, len-trim_left p s)

len-trim_right : (p : ℕ → Bool) (s : Text) → len (trim_right p s) ≤ len s
unfolding trim_right len
len-trim_right p [] = omega arith
len-trim_right p (c ∷ s) =
    let shorter = len-trim_right p s in
    elim (is_empty (trim_right p s) && p c)
      as (λ b. len (if b then [] else c ∷ trim_right p s) ≤ len (c ∷ s)) [
        | true ↦ omega arith
        | false ↦ omega (arith, shorter)
      ]

len-trim_space : (s : Text) → len (trim_space s) ≤ len s
unfolding trim_space
len-trim_space s =
    omega (arith, len-trim_right is_space (trim_left is_space s), len-trim_left is_space s)

accepted_lasting :
    (d : ℤ)
    → ltb_ℤ d (pos 0) ≡ false
    → ltb_ℤ (pos 86400) d ≡ false
    → (n : ℕ) × (d ≡ pos n) × (n ≤ 86400)
accepted_lasting (pos n) h k = (n, refl, ground arith)
accepted_lasting (negsuc n) h k = absurd (ground arith)

prepare-IsSound :
    (env : Env) (event : ProctorEvent) → is_invalid event ≡ false → IsSound (prepare env event)
unfolding is_invalid prepare
prepare-IsSound env event usable = record {
  known = ground arith;
  lasting = accepted_lasting event.duration_seconds (ground arith) (ground arith);
  short = ground (arith, len-trim_space event.details);
}

-- Recording an event, whatever the driver does, keeps it true of every stored event that its type
-- is known, it lasts at most a day and its details have at most 4096 bytes.
pub record_event-IsSound :
    {F : Type 0} (env : Env) (event : ProctorEvent) (uid : Text) (w : World F)
    → All IsSound w.db.proctor_events
    → All IsSound (record_event env event uid w).1.db.proctor_events
record_event-IsSound env event uid w sound =
    Outcome-keeps w.db _ _ (λ db. All IsSound db.proctor_events) sound
      (λ stored db' r.
        subst (λ db. All IsSound db.proctor_events) (sym r.updated)
          (All-append IsSound w.db.proctor_events (stored ∷ []) sound
            (subst IsSound (sym r.prepared) (prepare-IsSound env event r.usable), tt)))
      _ _ (record_event-Records env event uid w)
