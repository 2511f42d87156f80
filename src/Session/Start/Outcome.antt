-- ===== src/Session/Start/Outcome.antt =====
-- What `start_tx` does when no call fails, branch by branch.
use tao_core_go.Prelude.{
  ◌+◌, ◌<◌, Text, Bool, true, false, not, ◌&&◌, ◌||◌, Option, none, some, List, [], ◌∷◌, ◌++◌, ◌≡◌,
  ◌≢◌, refl, inl, inr, arith, ltb, leb, ◌==◌, text_eq_instance, nat_eq, if◌then◌else◌, find, filter,
  count, any, update_where, Bool-cases, Option-cases,
}
use tao_core_go.Float.{Float64}
use tao_core_go.Models.{not_started, in_progress, status_eq_instance, TestSession, Delivery}
use tao_core_go.Store.{
  Db, World, Result, ok, err, Error, delivery_not_found, delivery_closed, delivery_forbidden,
  max_attempts, duplicated_key, query, first, quiet,
}
use tao_core_go.Store.Faults.{Body}
use tao_core_go.Session.{Env}
use tao_core_go.Session.Start.{
  is_closed, membership_count, allowed_attempts, belongs, is_open, latest, same_session_key,
  check_groups, resume, new_attempt, continue_with, start_tx,
}

module _ {F : Type 0} ⦃float : Float64 F⦄ (env : Env) (d u : Text) (db : Db F) where
  -- The user is in a group of the delivery, if the delivery is restricted to groups.
  abbrev pub is_admitted : Bool
  is_admitted =
      not (ltb 0 (count (λ g. g.delivery_id == d) db.delivery_groups))
      || ltb 0 (membership_count d u db.delivery_groups db.user_groups)

  abbrev pub open_session : Option (TestSession F)
  open_session = latest (filter (λ s. belongs d u s && is_open s) db.sessions)

  abbrev pub next_session : TestSession F
  next_session = record {
    id = env.new_id;
    delivery_id = d;
    user_id = u;
    attempt = count (belongs d u) db.sessions + 1;
    status = in_progress;
    time_spent_seconds = 0;
    total_score = float.zero;
    started_at = some env.now;
    finished_at = none;
  }

  check_groups-quiet :
      check_groups {F = F} d u (quiet db)
      ≡ (if is_admitted then ok tt else err delivery_forbidden, quiet db)
  unfolding check_groups query
  check_groups-quiet = ground arith

  resume-quiet :
      (s : TestSession F)
      → resume env.now s (quiet db) ≡ (
          if s.status == not_started
          then (
            ok (record s { status = in_progress; started_at = some env.now }),
            quiet (record db {
              sessions =
                  update_where
                    (λ r. r.id == s.id)
                    (λ _. record s { status = in_progress; started_at = some env.now })
                    db.sessions;
            }),
          )
          else (ok s, quiet db))
  unfolding resume
  resume-quiet s = ground arith

  new_attempt-quiet :
      (delivery : Delivery)
      → new_attempt env delivery d u (quiet db) ≡ (
          if leb (allowed_attempts delivery.max_attempts) (count (belongs d u) db.sessions)
          then (err max_attempts, quiet db)
          else if any (same_session_key next_session) db.sessions
          then (err duplicated_key, quiet db)
          else (ok next_session, quiet (record db { sessions = db.sessions ++ next_session ∷ [] })))
  unfolding new_attempt query
  new_attempt-quiet delivery = ground arith

  abbrev found_delivery : Option Delivery
  found_delivery = find (λ r. r.id == d) db.deliveries

  -- Why a start is refused.
  pub data Refused : Error → Type 0 where
    unknown : find (λ (r : Delivery). r.id == d) db.deliveries ≡ none → Refused delivery_not_found
    closed :
        (delivery : Delivery)
        → find (λ (r : Delivery). r.id == d) db.deliveries ≡ some delivery
        → is_closed env.now delivery ≡ true
        → Refused delivery_closed
    not_admitted : is_admitted ≡ false → Refused delivery_forbidden
    exhausted :
        (delivery : Delivery)
        → find (λ (r : Delivery). r.id == d) db.deliveries ≡ some delivery
        → open_session ≡ none
        → leb (allowed_attempts delivery.max_attempts) (count (belongs d u) db.sessions) ≡ true
        → Refused max_attempts
    key_taken : any (same_session_key next_session) db.sessions ≡ true → Refused duplicated_key

  -- The ways in which a start succeeds, with the sessions afterwards.
  pub data Granted : TestSession F → List (TestSession F) → Type 0 where
    resumed :
        (s : TestSession F) → open_session ≡ some s → s.status ≢ not_started → Granted s db.sessions
    begun :
        (s s' : TestSession F)
        → open_session ≡ some s
        → s' ≡ record s { status = in_progress; started_at = some env.now }
        → Granted s' (update_where (λ r. r.id == s.id) (λ _. s') db.sessions)
    created :
        (delivery : Delivery)
        → find (λ (r : Delivery). r.id == d) db.deliveries ≡ some delivery
        → open_session ≡ none
        → count (belongs d u) db.sessions < allowed_attempts delivery.max_attempts
        → any (same_session_key next_session) db.sessions ≡ false
        → Granted next_session (db.sessions ++ next_session ∷ [])

  -- A success also means that the delivery is open and the user admitted.
  pub record IsGranted (s : TestSession F) (db' : Db F) : Type 0 where
    pub delivery : Delivery
    pub listed : find (λ (r : Delivery). r.id == d) db.deliveries ≡ some delivery
    pub not_closed : is_closed env.now delivery ≡ false
    pub admitted : is_admitted ≡ true
    pub sessions : List (TestSession F)
    pub granted : Granted s sessions
    pub updated : db' ≡ record db { sessions = sessions }

  -- What a quiet run ends in.
  abbrev pub Ends : Result (TestSession F) × World F → Type 0
  Ends x = Body Refused IsGranted x.0 x.1.db

  module _ (delivery : Delivery) (listed : found_delivery ≡ some delivery)
      (not_closed : is_closed env.now delivery ≡ false) (admitted : is_admitted ≡ true) where
    grant :
        (s : TestSession F) (rows : List (TestSession F))
        → Granted s rows
        → IsGranted s (record db { sessions = rows })
    grant s rows g = record {
      delivery = delivery;
      listed = listed;
      not_closed = not_closed;
      admitted = admitted;
      sessions = rows;
      granted = g;
      updated = refl;
    }

    resume-Ends : (s : TestSession F) → open_session ≡ some s → Ends (resume env.now s (quiet db))
    resume-Ends s found = elim (Bool-cases (s.status == not_started)) [
      | inl fresh ↦ rw (resume-quiet s, fresh) (grant _ _ (begun s _ found refl))
      | inr under_way ↦
          rw (resume-quiet s, under_way) (grant s db.sessions (resumed s found (ground arith)))
    ]

    new_attempt-Ends : open_session ≡ none → Ends (new_attempt env delivery d u (quiet db))
    new_attempt-Ends no_open =
        elim (Bool-cases
          (leb (allowed_attempts delivery.max_attempts) (count (belongs d u) db.sessions))) [
            | inl full ↦
                rw (new_attempt-quiet delivery, full) (exhausted delivery listed no_open full)
            | inr room ↦ elim (Bool-cases (any (same_session_key next_session) db.sessions)) [
              | inl taken ↦ rw (new_attempt-quiet delivery, room, taken) (key_taken taken)
              | inr fresh ↦
                  rw (new_attempt-quiet delivery, room, fresh)
                    (grant _ _ (created delivery listed no_open (ground arith) fresh))
            ]
          ]

  start_tx_missing :
      found_delivery ≡ none → start_tx env d u (quiet db) ≡ (err delivery_not_found, quiet db)
  unfolding start_tx first
  start_tx_missing e = ground arith

  start_tx_found :
      (delivery : Delivery)
      → found_delivery ≡ some delivery
      → start_tx env d u (quiet db) ≡ (
          if is_closed env.now delivery
          then (err delivery_closed, quiet db)
          else if is_admitted
          then continue_with env delivery d u open_session (quiet db)
          else (err delivery_forbidden, quiet db))
  unfolding start_tx first query
  start_tx_found delivery e = ground arith

  pub start_tx-Ends : Ends (start_tx env d u (quiet db))
  start_tx-Ends = elim (Option-cases found_delivery) [
    | inl missing ↦ rw (start_tx_missing missing) (unknown missing)
    | inr (delivery, listed) ↦ elim (Bool-cases (is_closed env.now delivery)) [
      | inl shut ↦ rw (start_tx_found delivery listed, shut) (closed delivery listed shut)
      | inr not_closed ↦ elim (Bool-cases is_admitted) [
        | inl admitted ↦ elim (Option-cases open_session) [
          | inl no_open ↦
              rw (start_tx_found delivery listed, not_closed, admitted, no_open)
                (unfold continue_with in
                  new_attempt-Ends delivery listed not_closed admitted no_open)
          | inr (s, found) ↦
              rw (start_tx_found delivery listed, not_closed, admitted, found)
                (unfold continue_with in resume-Ends delivery listed not_closed admitted s found)
        ]
        | inr barred ↦ rw (start_tx_found delivery listed, not_closed, barred) (not_admitted barred)
      ]
    ]
  ]
