-- ===== src/Session/Save/Outcome.antt =====
-- What `save_tx` does when no call fails, branch by branch.
use tao_core_go.Prelude.{
  ℕ, Text, Bool, true, false, Option, none, some, List, [], ◌∷◌, ◌++◌, ◌≡◌, ◌≢◌, refl, ◌⊎◌, inl,
  inr, arith, ◌==◌, text_eq_instance, nat_eq, if◌then◌else◌, find, any, update_where, text_eq_refl,
  Bool-cases, Option-cases,
}
use tao_core_go.Prelude.Rows.{find_append_last}
use tao_core_go.Float.{Float64}
use tao_core_go.Models.{
  in_progress, completed, status_eq_instance, TestSession, TestItem, ItemResponse,
}
use tao_core_go.Store.{
  Db, World, Result, ok, err, Error, session_not_found, session_completed, session_not_active,
  session_expired, item_not_in_delivery, record_not_found, duplicated_key, quiet,
}
use tao_core_go.Store.Faults.{Body}
use tao_core_go.Session.{Env}
use tao_core_go.Session.Lookup.{
  owned, find_owned, lookup_test_item, ensure_item_belongs_to_delivery,
}
use tao_core_go.Session.Save.{
  time_limit_seconds, is_expired, ensure_session_within_time_limit, same_answer, is_reread,
  write_response, save_tx,
}

module _ {F : Type 0} ⦃float : Float64 F⦄ (env : Env) (sid uid iid answer : Text) (db : Db F) where
  abbrev pub saved : ItemResponse F
  saved = record {
    id = env.new_id;
    session_id = sid;
    item_id = iid;
    response_data = answer;
    score_given = float.zero;
    is_correct = false;
    responded_at = env.now;
  }

  abbrev pub answered_before : Bool
  answered_before = any (same_answer sid iid) db.responses

  abbrev pub overwritten : List (ItemResponse F)
  overwritten =
      update_where (same_answer sid iid)
        (λ r. record r {
          response_data = answer;
          responded_at = env.now;
          score_given = float.zero;
          is_correct = false;
        })
        db.responses

  write_first_answer :
      answered_before ≡ false
      → write_response env sid iid answer (quiet db) ≡ (
          if any (λ r. r.id == env.new_id) db.responses
          then (err duplicated_key, quiet db)
          else (ok saved, quiet (record db { responses = db.responses ++ saved ∷ [] })))
  unfolding write_response is_reread same_answer
  write_first_answer e = ground (
    arith,
    text_eq_refl sid,
    text_eq_refl iid,
    text_eq_refl env.new_id,
    find_append_last (same_answer sid iid) (is_reread saved) db.responses saved
        (λ x h. ground arith) e,
  )

  write_later_answer :
      answered_before ≡ true
      → write_response env sid iid answer (quiet db) ≡ (
        elim (find (is_reread saved) overwritten) [
          | none ↦ err record_not_found
          | some row ↦ ok row
        ],
        quiet (record db { responses = overwritten }),
      )
  unfolding write_response
  write_later_answer e = ground arith

  module _ (s : TestSession F) where
    abbrev pub too_late : ℕ → Bool
    too_late started_at = is_expired (time_limit_seconds s.delivery_id db) started_at env.checked_at

    within_time_limit_quiet : ensure_session_within_time_limit env.checked_at s (quiet db) ≡ (
      elim s.started_at [
        | none ↦ err session_not_active
        | some t ↦ if too_late t then err session_expired else ok tt
      ],
      quiet db,
    )
    unfolding ensure_session_within_time_limit
    within_time_limit_quiet = ground arith

    belongs_quiet : ensure_item_belongs_to_delivery s.delivery_id iid (quiet db) ≡ (
      elim (lookup_test_item s.delivery_id iid db) [
        | none ↦ err item_not_in_delivery
        | some ti ↦ ok tt
      ],
      quiet db,
    )
    unfolding ensure_item_belongs_to_delivery
    belongs_quiet = ground arith

  abbrev pub found_session : Option (TestSession F)
  found_session = find (owned sid uid) db.sessions

  -- Why an answer is refused.
  pub data Refused : Error → Type 0 where
    unknown : find (owned sid uid) db.sessions ≡ none → Refused session_not_found
    finished :
        (s : TestSession F)
        → find (owned sid uid) db.sessions ≡ some s
        → s.status ≡ completed
        → Refused session_completed
    inactive :
        (s : TestSession F)
        → find (owned sid uid) db.sessions ≡ some s
        → (s.status ≢ in_progress) ⊎ (s.started_at ≡ none)
        → Refused session_not_active
    late :
        (s : TestSession F) (t : ℕ)
        → find (owned sid uid) db.sessions ≡ some s
        → s.started_at ≡ some t
        → is_expired (time_limit_seconds s.delivery_id db) t env.checked_at ≡ true
        → Refused session_expired
    foreign :
        (s : TestSession F)
        → find (owned sid uid) db.sessions ≡ some s
        → lookup_test_item s.delivery_id iid db ≡ none
        → Refused item_not_in_delivery
    id_taken : any (λ r. r.id == env.new_id) db.responses ≡ true → Refused duplicated_key
    -- the read back asks for the new identifier, which the old row does not have
    answered : answered_before ≡ true → Refused record_not_found

  -- What an accepted answer means.
  pub record IsAccepted (row : ItemResponse F) (db' : Db F) : Type 0 where
    pub session : TestSession F
    pub found : find (owned sid uid) db.sessions ≡ some session
    pub active : session.status ≡ in_progress
    pub start : ℕ
    pub started : session.started_at ≡ some start
    pub in_time :
        is_expired (time_limit_seconds session.delivery_id db) start env.checked_at ≡ false
    pub test_item : TestItem F
    pub asked : lookup_test_item session.delivery_id iid db ≡ some test_item
    pub responses : List (ItemResponse F)
    pub stored :
        ((answered_before ≡ false)
          × (any (λ r. r.id == env.new_id) db.responses ≡ false)
          × (row ≡ saved)
          × (responses ≡ db.responses ++ saved ∷ []))
        ⊎ ((answered_before ≡ true)
            × (find (is_reread saved) overwritten ≡ some row)
            × (responses ≡ overwritten))
    pub updated : db' ≡ record db { responses = responses }

  abbrev pub Ends : Result (ItemResponse F) × World F → Type 0
  Ends x = Body Refused IsAccepted x.0 x.1.db

  module _ (s : TestSession F) (found : find (owned sid uid) db.sessions ≡ some s)
      (active : s.status ≡ in_progress) (t : ℕ) (started : s.started_at ≡ some t)
      (in_time : is_expired (time_limit_seconds s.delivery_id db) t env.checked_at ≡ false)
      (ti : TestItem F) (asked : lookup_test_item s.delivery_id iid db ≡ some ti) where
    accept :
        (row : ItemResponse F) (rs : List (ItemResponse F))
        → ((answered_before ≡ false)
            × (any (λ r. r.id == env.new_id) db.responses ≡ false)
            × (row ≡ saved)
            × (rs ≡ db.responses ++ saved ∷ []))
          ⊎ ((answered_before ≡ true)
              × (find (is_reread saved) overwritten ≡ some row)
              × (rs ≡ overwritten))
        → IsAccepted row (record db { responses = rs })
    accept row rs stored = record {
      session = s;
      found = found;
      active = active;
      start = t;
      started = started;
      in_time = in_time;
      test_item = ti;
      asked = asked;
      responses = rs;
      stored = stored;
      updated = refl;
    }

    write-Ends : Ends (write_response env sid iid answer (quiet db))
    write-Ends = elim (Bool-cases answered_before) [
      | inl old ↦ elim (Option-cases (find (is_reread saved) overwritten)) [
        | inl unread ↦ rw (write_later_answer old, unread) (answered old)
        | inr (row, reread) ↦
            rw (write_later_answer old, reread) (accept row overwritten (inr (old, reread, refl)))
      ]
      | inr fresh ↦ elim (Bool-cases (any (λ r. r.id == env.new_id) db.responses)) [
        | inl taken ↦ rw (write_first_answer fresh, taken) (id_taken taken)
        | inr unused ↦
            rw (write_first_answer fresh, unused) (accept saved _ (inl (fresh, unused, refl, refl)))
      ]
    ]

  save_tx_missing :
      found_session ≡ none
      → save_tx env sid uid iid answer (quiet db) ≡ (err session_not_found, quiet db)
  unfolding save_tx find_owned
  save_tx_missing e = ground arith

  save_tx_idle :
      (s : TestSession F)
      → found_session ≡ some s
      → s.status ≢ in_progress
      → save_tx env sid uid iid answer (quiet db) ≡ (
        if s.status == completed then err session_completed else err session_not_active,
        quiet db,
      )
  unfolding save_tx find_owned
  save_tx_idle s e idle = ground arith

  -- The rest of the body, once the session is found in progress.
  save_tx_active :
      (s : TestSession F)
      → found_session ≡ some s
      → s.status ≡ in_progress
      → save_tx env sid uid iid answer (quiet db) ≡ elim s.started_at [
        | none ↦ (err session_not_active, quiet db)
        | some t ↦
            if too_late s t
            then (err session_expired, quiet db)
            else elim (lookup_test_item s.delivery_id iid db) [
              | none ↦ (err item_not_in_delivery, quiet db)
              | some ti ↦ write_response env sid iid answer (quiet db)
            ]
      ]
  unfolding save_tx find_owned
  save_tx_active s e active = ground (arith, within_time_limit_quiet s, belongs_quiet s)

  active-Ends :
      (s : TestSession F)
      → found_session ≡ some s
      → s.status ≡ in_progress
      → Ends (save_tx env sid uid iid answer (quiet db))
  active-Ends s found active = elim (Option-cases s.started_at) [
    | inl unstarted ↦
        rw (save_tx_active s found active, unstarted) (inactive s found (inr unstarted))
    | inr (t, started) ↦ elim (Bool-cases (too_late s t)) [
      | inl is_late ↦
          rw (save_tx_active s found active, started, is_late) (late s t found started is_late)
      | inr in_time ↦ elim (Option-cases (lookup_test_item s.delivery_id iid db)) [
        | inl missing ↦
            rw (save_tx_active s found active, started, in_time, missing) (foreign s found missing)
        | inr (ti, asked) ↦
            rw (save_tx_active s found active, started, in_time, asked)
              (write-Ends s found active t started in_time ti asked)
      ]
    ]
  ]

  idle-Ends :
      (s : TestSession F)
      → found_session ≡ some s
      → (s.status == in_progress) ≡ false
      → Ends (save_tx env sid uid iid answer (quiet db))
  idle-Ends s found idle =
      let other : s.status ≢ in_progress = ground arith in
      elim (Bool-cases (s.status == completed)) [
        | inl done ↦ rw (save_tx_idle s found other, done) (finished s found (ground arith))
        | inr not_done ↦ rw (save_tx_idle s found other, not_done) (inactive s found (inl other))
      ]

  pub save_tx-Ends : Ends (save_tx env sid uid iid answer (quiet db))
  save_tx-Ends = elim (Option-cases found_session) [
    | inl missing ↦ rw (save_tx_missing missing) (unknown missing)
    | inr (s, found) ↦ elim (Bool-cases (s.status == in_progress)) [
      | inl active ↦ active-Ends s found (ground arith)
      | inr idle ↦ idle-Ends s found idle
    ]
  ]
