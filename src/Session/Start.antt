-- ===== src/Session/Start.antt =====
-- `StartSession`
pub mod Laws
pub mod Outcome
pub mod Faults
pub mod Frame
use tao_core_go.Prelude.{
  ℕ, suc, ◌+◌, Text, Bool, true, false, not, ◌&&◌, ◌||◌, Option, none, some, List, [], ◌∷◌, ◌++◌,
  ltb, leb, ◌==◌, text_eq_instance, nat_eq, if◌then◌else◌, find, filter, count, any, update_where,
  text_eq,
}
use tao_core_go.Prelude.Int.{ℤ, pos, negsuc}
use tao_core_go.Text.{trim_space, is_empty}
use tao_core_go.Float.{Float64}
use tao_core_go.Models.{
  SessionStatus, not_started, in_progress, paused, completed, status_eq_instance, TestSession,
  Delivery, UserGroup, DeliveryGroup,
}
use tao_core_go.Store.{
  Db, Tx, Result, ok, err, Error, delivery_not_found, delivery_closed, delivery_forbidden,
  max_attempts, duplicated_key, pure, raise, query, first, write, transaction, ◌>>=◌, ◌>>◌,
}
use tao_core_go.Session.{Env}

-- !IsActive, or before the start, or after the end
unfoldable pub is_closed : ℕ → Delivery → Bool
is_closed now delivery =
    not delivery.is_active
    || elim delivery.start_time [ none ↦ false | some t ↦ ltb now t ]
    || elim delivery.end_time [ none ↦ false | some t ↦ ltb t now ]

-- The rows of user_groups joined with delivery_groups, for a user and a delivery.
unfoldable pub membership_count : Text → Text → List DeliveryGroup → List UserGroup → ℕ
membership_count d u dgs [] = 0
membership_count d u dgs (ug ∷ ugs) =
    (if ug.user_id == u
      then count (λ g. g.group_id == ug.group_id && g.delivery_id == d) dgs
      else 0)
    + membership_count d u dgs ugs

-- The default of one attempt where the setting is not positive.
unfoldable pub allowed_attempts : ℤ → ℕ
allowed_attempts (pos n) = if n == 0 then 1 else n
allowed_attempts (negsuc n) = 1

module _ {F : Type 0} where
  unfoldable pub belongs : Text → Text → TestSession F → Bool
  belongs d u s = s.delivery_id == d && s.user_id == u

  -- status IN (NOT_STARTED, IN_PROGRESS, PAUSED)
  unfoldable pub is_open : TestSession F → Bool
  is_open s = s.status == not_started || s.status == in_progress || s.status == paused

  -- Order("attempt DESC").First
  unfoldable pub latest : List (TestSession F) → Option (TestSession F)
  latest [] = none
  latest (s ∷ ss) = elim (latest ss) [
    | none ↦ some s
    | some t ↦ if ltb s.attempt t.attempt then some t else some s
  ]

  -- `Save` of a row that stands in the table
  unfoldable pub save_session : TestSession F → Tx F Unit
  unfolding write
  save_session row = write (λ db.
      ok (tt, record db { sessions = update_where (λ r. r.id == row.id) (λ _. row) db.sessions }))

  -- The primary key and the index idx_delivery_user_attempt are unique.
  unfoldable pub same_session_key : TestSession F → TestSession F → Bool
  same_session_key row r =
      r.id == row.id
      || r.delivery_id == row.delivery_id && r.user_id == row.user_id && r.attempt == row.attempt

  unfoldable pub create_session : TestSession F → Tx F Unit
  unfolding write same_session_key
  create_session row = write (λ db.
      if any (same_session_key row) db.sessions
      then err duplicated_key
      else ok (tt, record db { sessions = db.sessions ++ row ∷ [] }))

module _ {F : Type 0} ⦃float : Float64 F⦄ where
  check_membership : Text → Text → Tx F Unit
  check_membership d u = do
    members ← query (λ db. membership_count d u db.delivery_groups db.user_groups)
    if members == 0 then raise delivery_forbidden else pure tt

  check_groups : Text → Text → Tx F Unit
  unfolding check_membership
  check_groups d u = do
    restricted ← query (λ db. count (λ g. g.delivery_id == d) db.delivery_groups)
    if ltb 0 restricted then check_membership d u else pure tt

  -- An open session is taken up again; one that was not started is started now.
  resume : ℕ → TestSession F → Tx F (TestSession F)
  unfolding save_session
  resume now session =
      let started = record session { status = in_progress; started_at = some now } in
      if session.status == not_started
      then (do save_session started; pure started)
      else pure session

  -- A new attempt, within the number of attempts that the delivery allows.
  new_attempt : Env → Delivery → Text → Text → Tx F (TestSession F)
  unfolding create_session
  new_attempt env delivery d u = do
    attempts ← query (λ db. count (belongs d u) db.sessions)
    if leb (allowed_attempts delivery.max_attempts) attempts then raise max_attempts else do
      let session : TestSession F = record {
        id = env.new_id;
        delivery_id = d;
        user_id = u;
        attempt = attempts + 1;
        status = in_progress;
        time_spent_seconds = 0;
        total_score = float.zero;
        started_at = some env.now;
        finished_at = none;
      }
      create_session session
      pure session

  continue_with : Env → Delivery → Text → Text → Option (TestSession F) → Tx F (TestSession F)
  continue_with env delivery d u (some session) = resume env.now session
  continue_with env delivery d u none = new_attempt env delivery d u

  unfoldable pub start_tx : Env → Text → Text → Tx F (TestSession F)
  unfolding check_groups continue_with resume new_attempt
  start_tx env d u = do
    delivery ← first delivery_not_found (λ db. find (λ r. r.id == d) db.deliveries)
    if is_closed env.now delivery then raise delivery_closed else do
      check_groups d u
      open_session ← query (λ db. latest (filter (λ s. belongs d u s && is_open s) db.sessions))
      continue_with env delivery d u open_session

  unfoldable pub start_session : Env → Text → Text → Tx F (TestSession F)
  unfolding start_tx
  start_session env delivery_id user_id =
      let d = trim_space delivery_id in
      let u = trim_space user_id in
      if is_empty d || is_empty u then raise delivery_not_found else transaction (start_tx env d u)
