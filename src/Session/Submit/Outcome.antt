-- ===== src/Session/Submit/Outcome.antt =====
-- What `submit_tx` does when no call fails, branch by branch; its outcomes for every plan of faults.
use tao_core_go.Prelude.{
  ℕ, Text, Bool, true, false, none, some, List, [], ◌≡◌, ◌≢◌, refl, inl, inr, arith, ◌==◌, nat_eq,
  text_eq_instance, if◌then◌else◌, find, count, update_where, Bool-cases, Option-cases,
}
use tao_core_go.Float.{Float64}
use tao_core_go.Models.{in_progress, completed, status_eq_instance, TestSession, ItemResponse}
use tao_core_go.Store.{
  Db, World, Result, ok, err, Error, session_not_found, session_not_active, session_completed,
  record_not_found, quiet, transaction, continue,
}
use tao_core_go.Store.Faults.{Body, Outcome, transaction-Outcome}
use tao_core_go.Session.{Env}
use tao_core_go.Session.Lookup.{Loaded, owned, responses_of}
use tao_core_go.Session.Submit.{submittable, complete, score_responses, finish_session, submit_tx}
use tao_core_go.Session.Submit.Scores.{Unscorable, Scores, with_responses, score_responses-Ends}
use tao_core_go.Session.Submit.Faults.{submit_tx-IsRobust, score_responses-IsRobust}

module _ {F : Type 0} ⦃float : Float64 F⦄ (fold : ℕ → ℕ) (env : Env) (sid uid : Text)
    (db : Db F) where
  -- Why a submission is refused.
  pub data Refused : Error → Type 0 where
    unknown : find (owned sid uid) db.sessions ≡ none → Refused session_not_found
    inactive :
        (s : TestSession F)
        → find (owned sid uid) db.sessions ≡ some s
        → s.status ≢ in_progress
        → s.status ≢ completed
        → Refused session_not_active
    unscorable :
        (s : TestSession F) (e : Error)
        → find (owned sid uid) db.sessions ≡ some s
        → s.status ≡ in_progress
        → Unscorable fold s.delivery_id db (responses_of s.id db) float.zero e
        → Refused e
    -- not one row to complete
    not_one :
        (s : TestSession F)
        → find (owned sid uid) db.sessions ≡ some s
        → count (submittable s.id s.user_id) db.sessions ≢ 1
        → Refused session_completed
    -- the completed row is not there to be read again
    unread :
        (s : TestSession F) (total : F)
        → find (owned sid uid) db.sessions ≡ some s
        → find
            (λ r. r.id == s.id)
            (update_where (submittable s.id s.user_id) (complete env.now total) db.sessions)
          ≡ none
        → Refused record_not_found

  abbrev pub completed_sessions : TestSession F → F → List (TestSession F)
  completed_sessions s total =
      update_where (submittable s.id s.user_id) (complete env.now total) db.sessions

  -- A submission that finds the session completed reports it and changes nothing.
  pub record IsRepeated (loaded : Loaded F) (db' : Db F) : Type 0 where
    pub found : find (owned sid uid) db.sessions ≡ some loaded.session
    pub finished : loaded.session.status ≡ completed
    pub listed : loaded.responses ≡ responses_of loaded.session.id db
    pub unchanged : db' ≡ db

  -- A submission that completes the session.
  pub record IsCompleted (loaded : Loaded F) (db' : Db F) : Type 0 where
    pub session : TestSession F
    pub found : find (owned sid uid) db.sessions ≡ some session
    pub active : session.status ≡ in_progress
    pub total : F
    pub rows : List (ItemResponse F)
    pub scored :
        Scores fold session.delivery_id db
          (responses_of session.id db)
          float.zero
          db.responses
          total
          rows
    pub one : count (submittable session.id session.user_id) db.sessions ≡ 1
    pub updated : db' ≡ record db { responses = rows; sessions = completed_sessions session total }
    pub reread :
        find (λ r. r.id == session.id) (completed_sessions session total) ≡ some loaded.session
    pub listed : loaded.responses ≡ responses_of loaded.session.id (with_responses db rows)

  abbrev pub Submitted : Loaded F × Bool → Db F → Type 0
  Submitted (loaded, did_complete) db' = elim did_complete [
    | true ↦ IsCompleted loaded db'
    | false ↦ IsRepeated loaded db'
  ]

  abbrev Ends : Result (Loaded F × Bool) × World F → Type 0
  Ends x = Body Refused Submitted x.0 x.1.db

  finish_quiet :
      (s : TestSession F) (rs rows : List (ItemResponse F)) (total : F)
      → finish_session fold env
          (record { session = s; responses = rs })
          total
          (quiet (with_responses db rows))
        ≡ (let db' = record db { responses = rows; sessions = completed_sessions s total } in
            if count (submittable s.id s.user_id) db.sessions == 1
            then elim (find (λ r. r.id == s.id) (completed_sessions s total)) [
              | none ↦ (err record_not_found, quiet db')
              | some s' ↦ (
                ok (record { session = s'; responses = responses_of s'.id db' }, true),
                quiet db',
              )
            ]
            else (err session_completed, quiet db'))
  unfolding finish_session
  finish_quiet s rs rows total = ground arith

  submit_missing :
      find (owned sid uid) db.sessions ≡ none
      → submit_tx fold env sid uid (quiet db) ≡ (err session_not_found, quiet db)
  unfolding submit_tx
  submit_missing e = ground arith

  abbrev pub loaded_of : TestSession F → Loaded F
  loaded_of s = record { session = s; responses = responses_of s.id db }

  pub submit_idle :
      (s : TestSession F)
      → find (owned sid uid) db.sessions ≡ some s
      → (s.status == in_progress) ≡ false
      → submit_tx fold env sid uid (quiet db) ≡ (
        if s.status == completed then ok (loaded_of s, false) else err session_not_active,
        quiet db,
      )
  unfolding submit_tx
  submit_idle s e idle = ground arith

  submit_active :
      (s : TestSession F)
      → find (owned sid uid) db.sessions ≡ some s
      → (s.status == in_progress) ≡ true
      → submit_tx fold env sid uid (quiet db) ≡ (
          let (r, w) =
            score_responses fold s.delivery_id (responses_of s.id db) float.zero (quiet db) in
          continue r (finish_session fold env (loaded_of s)) w)
  unfolding submit_tx
  submit_active s e active = ground arith

  module _ (s : TestSession F) (found : find (owned sid uid) db.sessions ≡ some s)
      (active : s.status ≡ in_progress) where
    complete-Ends :
        (total : F) (rows : List (ItemResponse F))
        → Scores fold s.delivery_id db (responses_of s.id db) float.zero db.responses total rows
        → Ends (finish_session fold env (loaded_of s) total (quiet (with_responses db rows)))
    complete-Ends total rows scored =
        elim (Bool-cases (count (submittable s.id s.user_id) db.sessions == 1)) [
          | inl one ↦ elim (Option-cases (find (λ r. r.id == s.id) (completed_sessions s total))) [
            | inl gone ↦
                rw (finish_quiet s (responses_of s.id db) rows total, one, gone)
                  (unread s total found gone)
            | inr (s', reread) ↦
                rw (finish_quiet s (responses_of s.id db) rows total, one, reread)
                  (record {
                    session = s;
                    found = found;
                    active = active;
                    total = total;
                    rows = rows;
                    scored = scored;
                    one = ground arith;
                    updated = refl;
                    reread = reread;
                    listed = unfold responses_of in refl;
                  })
          ]
          | inr other ↦
              rw (finish_quiet s (responses_of s.id db) rows total, other)
                (not_one s found (ground arith))
        ]

    -- The end of the loop, then the completion.
    scored-Ends :
        (r : Result F) (w : World F)
        → w.faults ≡ []
        → Body
            (Unscorable fold s.delivery_id db (responses_of s.id db) float.zero)
            (λ total' db'.
              (rows : List (ItemResponse F)) × (db' ≡ with_responses db rows)
              × Scores fold s.delivery_id db
                  (responses_of s.id db)
                  float.zero
                  db.responses
                  total'
                  rows)
            r
            w.db
        → Ends (continue r (finish_session fold env (loaded_of s)) w)
    scored-Ends (err e) w calm h = unscorable s e found active h
    scored-Ends (ok total) w calm h =
        let same : w ≡ quiet (with_responses db h.0) =
          λ i. record { db = h.1 i; faults = calm i } in
        rw same (complete-Ends total h.0 h.2)

    active-Ends : Ends (submit_tx fold env sid uid (quiet db))
    active-Ends =
        let calm =
          (score_responses-IsRobust fold s.delivery_id (responses_of s.id db)
              float.zero).stays_quiet
            db in
        let (r, w) =
          score_responses fold s.delivery_id (responses_of s.id db) float.zero (quiet db) in
        rw (submit_active s found (ground arith)) (
          scored-Ends r w calm (
            score_responses-Ends fold s.delivery_id db (responses_of s.id db) float.zero
              db.responses))

  idle-Ends :
      (s : TestSession F)
      → find (owned sid uid) db.sessions ≡ some s
      → (s.status == in_progress) ≡ false
      → Ends (submit_tx fold env sid uid (quiet db))
  idle-Ends s found idle = elim (Bool-cases (s.status == completed)) [
    | inl done ↦
        rw (submit_idle s found idle, done)
          (record { found = found; finished = ground arith; listed = refl; unchanged = refl })
    | inr not_done ↦
        rw (submit_idle s found idle, not_done) (inactive s found (ground arith) (ground arith))
  ]

  submit_tx-Ends : Ends (submit_tx fold env sid uid (quiet db))
  submit_tx-Ends = elim (Option-cases (find (owned sid uid) db.sessions)) [
    | inl missing ↦ rw (submit_missing missing) (unknown missing)
    | inr (s, found) ↦ elim (Bool-cases (s.status == in_progress)) [
      | inl active ↦ active-Ends s found (ground arith)
      | inr idle ↦ idle-Ends s found idle
    ]
  ]

module _ {F : Type 0} ⦃float : Float64 F⦄ (fold : ℕ → ℕ) (env : Env) (sid uid : Text)
    (w : World F) where
  abbrev pub Submits : Result (Loaded F × Bool) × World F → Type 0
  Submits x =
      Outcome w.db (Refused fold env sid uid w.db) (Submitted fold env sid uid w.db) x.0 x.1.db

  pub submit-Submits : Submits (transaction (submit_tx fold env sid uid) w)
  submit-Submits =
      transaction-Outcome (submit_tx fold env sid uid) (submit_tx-IsRobust fold env sid uid) _ _ w
        (submit_tx-Ends fold env sid uid w.db)
