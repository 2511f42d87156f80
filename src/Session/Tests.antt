-- ===== src/Session/Tests.antt =====
-- A small database, and the theorems on the session service at work on it.
use tao_core_go.Prelude.{
  ℕ, ◌+◌, ◌*◌, ◌≤◌, true, false, none, some, List, [], ◌∷◌, ◌≡◌, ◌≢◌, refl, ◌⊎◌, inl, arith, leb,
  ltb, codes, count, count-le-length, find, filter, update_where, any, text_eq,
}
use tao_core_go.Prelude.Int.{ℤ, pos, negsuc}
use tao_core_go.Prelude.Rows.{In}
use tao_core_go.Float.{Float64}
use tao_core_go.Models.{
  single_choice, Item, Delivery, in_progress, completed, TestSession, ItemResponse,
}
use tao_core_go.Store.{Db, World, Result, ok, err, driver, quiet, transaction}
use tao_core_go.Text.{trim_space}
use tao_core_go.Scoring.{bad_score, score_item}
use tao_core_go.Session.{Env}
use tao_core_go.Session.Lookup.{Loaded, owned, responses_of, lookup_test_item, asks, preload_item}
use tao_core_go.Session.Start.{allowed_attempts}
use tao_core_go.Session.Save.{save_response, same_answer}
use tao_core_go.Session.Save.Laws.{Saves, save_response-Saves, save_response_again}
use tao_core_go.Session.Submit.{Services, Effect, submit_session}
use tao_core_go.Session.Consistency.Invariant.{IsConsistent}
use tao_core_go.Session.Grading.{
  IsGraded, Resubmitted, submit_session-IsGraded, submit_session_again,
}
use tao_core_go.Session.History.{Call, start_call, save_call, submit_call, run, run-IsConsistent}
use tao_core_go.Session.History.Completed.{run-keeps_completed}
use tao_core_go.Session.History.Responses.{run-keeps_answers}
use tao_core_go.Session.History.Effects.{publishes, run-publishes_once}

-- Whole numbers for the scores.
instance abbrev whole : Float64 ℕ
whole = record {
  zero = 0;
  one = 1;
  million = 1_000_000;
  add = λ x y. x + y;
  mul = λ x y. x * y;
  le = leb;
  lt = ltb;
  is_nan = λ x. false;
  is_inf = λ x. false;
}

abbrev plain : ℕ → ℕ
plain c = c

abbrev question : Item ℕ
question = record {
  id = codes "i1";
  title = [];
  prompt = [];
  item_type = single_choice;
  options_json = [];
  correct_answer = codes "A";
  max_score = 5;
  layout_hint = [];
}

abbrev exam : Delivery
exam = record {
  id = codes "d1";
  test_id = codes "t1";
  title = [];
  start_time = none;
  end_time = none;
  is_active = true;
  max_attempts = pos 2;
}

abbrev attempt_one : TestSession ℕ
attempt_one = record {
  id = codes "s1";
  delivery_id = codes "d1";
  user_id = codes "ann";
  attempt = 1;
  status = in_progress;
  time_spent_seconds = 0;
  total_score = 0;
  started_at = some 1_000_000_000;
  finished_at = none;
}

abbrev answer_one : ItemResponse ℕ
answer_one = record {
  id = codes "r1";
  session_id = codes "s1";
  item_id = codes "i1";
  response_data = codes " A";
  score_given = 0;
  is_correct = false;
  responded_at = 2_000_000_000;
}

abbrev tables : TestSession ℕ → ItemResponse ℕ → Db ℕ
tables session response = record {
  deliveries = exam ∷ [];
  tests =
      (record {
        id = codes "t1";
        title = [];
        description = [];
        qti_version = [];
        time_limit_seconds = pos 60;
      })
      ∷ [];
  test_sections =
      (record {
        id = codes "p1";
        test_id = codes "t1";
        title = [];
        order_index = pos 0;
        section_type = [];
      })
      ∷ [];
  test_items =
      (record {
        id = codes "q1";
        section_id = codes "p1";
        item_id = codes "i1";
        order_index = pos 0;
        weight = 2;
      })
      ∷ [];
  items = question ∷ [];
  delivery_groups = [];
  user_groups = [];
  sessions = session ∷ [];
  responses = response ∷ [];
  proctor_events = [];
  lti = record { platforms = []; states = []; resource_links = []; link_sessions = [] };
  webhooks = record { configs = []; logs = [] };
}

abbrev open_tables : Db ℕ
open_tables = tables attempt_one answer_one

allowed_attempts_pos : (z : ℤ) → 1 ≤ allowed_attempts z
unfolding allowed_attempts
allowed_attempts_pos (pos n) = ground arith
allowed_attempts_pos (negsuc n) = omega arith

tables-IsConsistent : (s : TestSession ℕ) (r : ItemResponse ℕ) → IsConsistent (tables s r)
tables-IsConsistent s r = record {
  session_ids = λ i. count-le-length _ (s ∷ []);
  response_ids = λ i. count-le-length _ (r ∷ []);
  one_open = λ d u. count-le-length _ (s ∷ []);
  capped = λ d u delivery listed.
      omega (arith, count-le-length _ (s ∷ []), allowed_attempts_pos delivery.max_attempts);
}

abbrev env_at : ℕ → Env
env_at seconds = record {
  checked_at = seconds * 1_000_000_000;
  now = seconds * 1_000_000_000;
  new_id = codes "n1";
}

abbrev all_services : Services
all_services = record { event_bus = true; webhook_service = true; lti_service = true }

-- The session and its answer once submitted at 11 seconds.
abbrev finished_one : TestSession ℕ
finished_one = record attempt_one {
  status = completed;
  total_score = 10;
  finished_at = some (11 * 1_000_000_000);
  time_spent_seconds = 10;
}

abbrev graded_one : ItemResponse ℕ
graded_one = record answer_one { score_given = 10; is_correct = true }

abbrev calls : List Call
calls =
    save_call (env_at 5) (codes "s1") (codes "ann") (codes "i1") (codes "A")
    ∷ submit_call all_services (env_at 11) (codes "s1") (codes "ann")
    ∷ submit_call all_services (env_at 12) (codes "s1") (codes "ann")
    ∷ start_call (env_at 20) (codes "d1") (codes "ann")
    ∷ []

-- One call of the first transaction fails.
abbrev faulty : Db ℕ → World ℕ
faulty db = record { db = db; faults = false ∷ true ∷ [] }

run-IsConsistent_example : IsConsistent (run plain calls (faulty open_tables)).1.db
run-IsConsistent_example =
    run-IsConsistent plain calls (faulty open_tables) (tables-IsConsistent attempt_one answer_one)

abbrev loaded_one : Loaded ℕ
loaded_one = record { session = finished_one; responses = graded_one ∷ [] }

abbrev submit_one : (Result (Loaded ℕ) × List (Effect ℕ)) × World ℕ
submit_one =
    submit_session plain all_services (env_at 11) (codes "s1") (codes "ann") (quiet open_tables)

submit_one_returns : submit_one.0.0 ≡ ok loaded_one
unfolding submit_session find text_eq any filter count update_where trim_space transaction
    responses_of lookup_test_item asks bad_score preload_item score_item
submit_one_returns = refl

submit_session-IsGraded_example :
    IsGraded plain (env_at 11) (codes "s1") (codes "ann") open_tables loaded_one
    ⊎ Resubmitted plain (env_at 11) (codes "s1") (codes "ann") open_tables loaded_one
submit_session-IsGraded_example =
    submit_session-IsGraded plain (env_at 11) (codes "s1") (codes "ann") all_services
      (quiet open_tables) loaded_one (tables-IsConsistent attempt_one answer_one) submit_one_returns

abbrev closed_tables : Db ℕ
closed_tables = tables finished_one graded_one

run-keeps_completed_example : In finished_one (run plain calls (faulty closed_tables)).1.db.sessions
run-keeps_completed_example =
    run-keeps_completed finished_one refl plain calls (faulty closed_tables)
      (tables-IsConsistent finished_one graded_one) (inl refl)

run-keeps_answers_example : In graded_one (run plain calls (faulty closed_tables)).1.db.responses
run-keeps_answers_example =
    run-keeps_answers finished_one refl graded_one refl plain calls (faulty closed_tables)
      (tables-IsConsistent finished_one graded_one) (inl refl) (inl refl)

run-publishes_once_example :
    count (publishes (codes "s1")) (run plain calls (faulty open_tables)).0 ≤ 1
run-publishes_once_example =
    run-publishes_once plain (codes "s1") calls (faulty open_tables)
      (tables-IsConsistent attempt_one answer_one)

save_response-Saves_example :
    Saves (env_at 5) (codes "s1") (codes "ann") (codes "i1") (codes "B") (quiet open_tables) (
      save_response
        (env_at 5)
        (codes "s1")
        (codes "ann")
        (codes "i1")
        (codes "B")
        (quiet open_tables))
save_response-Saves_example =
    save_response-Saves (env_at 5) (codes "s1") (codes "ann") (codes "i1") (codes "B")
      (quiet open_tables)

unused : any (λ x. text_eq x.id (codes "n1")) open_tables.responses ≡ false
unfolding any text_eq
unused = refl

answered : any (same_answer (codes "s1") (codes "i1")) open_tables.responses ≡ true
unfolding any same_answer text_eq
answered = refl

-- The second answer to the question of `answer_one`.
save_response_again_example :
    (save_response
      (env_at 5)
      (codes "s1")
      (codes "ann")
      (codes "i1")
      (codes "B")
      (quiet open_tables)).0
    ≢ ok answer_one
save_response_again_example =
    save_response_again (env_at 5) (codes "s1") (codes "ann") (codes "i1") (codes "B")
      (quiet open_tables) answer_one unused answered

listed : find (owned (codes "s1") (codes "ann")) closed_tables.sessions ≡ some finished_one
unfolding find owned text_eq
listed = refl

submit_session_again_example :
    let x =
      submit_session plain all_services
        (env_at 12)
        (codes "s1")
        (codes "ann")
        (faulty closed_tables) in
    (x.1.db ≡ closed_tables)
    × (x.0.1 ≡ [])
    × ((x.0.0
          ≡ ok (record {
            session = finished_one;
            responses = responses_of finished_one.id closed_tables;
          }))
        ⊎ (x.0.0 ≡ err driver))
submit_session_again_example =
    submit_session_again plain (env_at 12) (codes "s1") (codes "ann") all_services finished_one
      (faulty closed_tables) listed refl
