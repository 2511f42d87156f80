-- ===== src/Session/Save.antt =====
-- `SaveResponse` and `ensureSessionWithinTimeLimit`
pub mod Laws
pub mod Outcome
pub mod Faults
use tao_core_go.Prelude.{
  ℕ, zero, suc, ◌+◌, ◌-◌, ◌*◌, ◌%◌, ◌^◌, Text, Bool, true, false, ◌&&◌, Option, none, some, List,
  [], ◌∷◌, ◌++◌, ltb, ◌==◌, text_eq_instance, text_eq, find, any, update_where, if◌then◌else◌,
}
use tao_core_go.Prelude.Int.{ℤ, pos, negsuc}
use tao_core_go.Float.{Float64}
use tao_core_go.Models.{
  Delivery, Test, TestSession, ItemResponse, SessionStatus, completed, in_progress,
  status_eq_instance,
}
use tao_core_go.Store.{
  Db, Tx, Result, ok, err, Error, session_completed, session_not_active, session_expired,
  duplicated_key, record_not_found, pure, raise, query, first, write, transaction, ◌>>=◌, ◌>>◌,
}
use tao_core_go.Session.{Env}
use tao_core_go.Session.Lookup.{find_owned, ensure_item_belongs_to_delivery}

-- nanoseconds in a second
abbrev pub second : ℕ
second = 1_000_000_000

-- `Scan` of tests.time_limit_seconds: the zero value where the join has no row.
unfoldable pub time_limit_seconds : {F : Type 0} → Text → Db F → ℤ
time_limit_seconds delivery_id db =
    elim (find (λ d. d.id == delivery_id && any (λ t. t.id == d.test_id) db.tests) db.deliveries) [
      | none ↦ pos 0
      | some d ↦ elim (find (λ t. t.id == d.test_id) db.tests) [
        | none ↦ pos 0
        | some t ↦ t.time_limit_seconds
      ]
    ]

-- time.Duration(limit) * time.Second, as the 64 bits of an int64
abbrev pub limit_bits : ℕ → ℕ
limit_bits limit = limit * second % 2 ^ 64

-- time.Now().After(StartedAt.Add(d)), where the bits of `d` from 2^63 on stand for a negative
-- duration, of which `now` gets what the start loses
unfoldable pub is_after : ℕ → ℕ → ℕ → Bool
is_after bits started_at now =
    if ltb bits (2 ^ 63)
    then ltb (started_at + bits) now
    else ltb started_at (now + (2 ^ 64 - bits))

-- TimeLimitSeconds > 0 && time.Now().After(StartedAt.Add(time.Duration(limit) * time.Second))
unfoldable pub is_expired : ℤ → ℕ → ℕ → Bool
unfolding is_after
is_expired (pos limit) started_at now = ltb 0 limit && is_after (limit_bits limit) started_at now
is_expired (negsuc n) started_at now = false

module _ {F : Type 0} where
  check_started : ℕ → Text → Option ℕ → Tx F Unit
  check_started now delivery_id none = raise session_not_active
  check_started now delivery_id (some started_at) = do
    limit ← query (time_limit_seconds delivery_id)
    if is_expired limit started_at now then raise session_expired else pure tt

  unfoldable pub ensure_session_within_time_limit : ℕ → TestSession F → Tx F Unit
  unfolding check_started query
  ensure_session_within_time_limit now session =
      check_started now session.delivery_id session.started_at

  unfoldable pub same_answer : Text → Text → ItemResponse F → Bool
  same_answer session_id item_id r = r.session_id == session_id && r.item_id == item_id

module _ {F : Type 0} ⦃float : Float64 F⦄ where
  -- ON CONFLICT (session_id, item_id) DO UPDATE, else an insert under the primary key
  unfoldable pub upsert_response : ItemResponse F → Db F → Result (Unit × Db F)
  unfolding same_answer
  upsert_response row db =
      if any (same_answer row.session_id row.item_id) db.responses
      then ok (
        tt,
        record db {
          responses =
              update_where (same_answer row.session_id row.item_id)
                (λ r. record r {
                  response_data = row.response_data;
                  responded_at = row.responded_at;
                  score_given = float.zero;
                  is_correct = false;
                })
                db.responses;
        },
      )
      else if any (λ r. r.id == row.id) db.responses
      then err duplicated_key
      else ok (tt, record db { responses = db.responses ++ row ∷ [] })

  -- The row that is read back. gorm's `First` also asks for the primary key of the struct that it
  -- fills, where that is set, and `saved` has the new identifier there.
  unfoldable pub is_reread : ItemResponse F → ItemResponse F → Bool
  unfolding same_answer
  is_reread saved r = same_answer saved.session_id saved.item_id r && r.id == saved.id

  write_response : Env → Text → Text → Text → Tx F (ItemResponse F)
  unfolding upsert_response is_reread first write
  write_response env session_id item_id response_data = do
    let saved : ItemResponse F = record {
      id = env.new_id;
      session_id = session_id;
      item_id = item_id;
      response_data = response_data;
      score_given = float.zero;
      is_correct = false;
      responded_at = env.now;
    }
    write (upsert_response saved)
    first record_not_found (λ db. find (is_reread saved) db.responses)

  unfoldable pub save_tx : Env → Text → Text → Text → Text → Tx F (ItemResponse F)
  unfolding find_owned ensure_session_within_time_limit ensure_item_belongs_to_delivery
      write_response
  save_tx env session_id user_id item_id response_data = do
    session ← find_owned session_id user_id
    if session.status == completed then raise session_completed else do
      if session.status == in_progress
          then (do
            ensure_session_within_time_limit env.checked_at session
            ensure_item_belongs_to_delivery session.delivery_id item_id
            write_response env session_id item_id response_data)
          else raise session_not_active

  unfoldable pub save_response : Env → Text → Text → Text → Text → Tx F (ItemResponse F)
  unfolding save_tx
  save_response env session_id user_id item_id response_data =
      transaction (save_tx env session_id user_id item_id response_data)
