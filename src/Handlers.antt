-- ===== src/Handlers.antt =====
-- internal/handler/session_handler.go and proctor_handler.go: the guards of the requests and the
-- status codes. Binding the JSON of a body is gin's: a handler gets the bound request, or none.
mod Tests
pub mod Status
pub mod Lti
pub mod Webhooks
use tao_core_go.Prelude.{
  ℕ, Text, Bool, true, false, not, Option, none, some, List, [], ◌∷◌, if◌then◌else◌,
}
use tao_core_go.Prelude.Int.{ℤ}
use tao_core_go.Text.{trim_space, is_empty}
use tao_core_go.Float.{Float64}
use tao_core_go.Models.{
  ProctorEventType, ProctorEvent, ProctorAnalyticsSummary, TestSession, ItemResponse,
}
use tao_core_go.Store.{
  World, Result, ok, err, Error, session_not_found, delivery_not_found, delivery_forbidden,
  delivery_closed, max_attempts, session_completed, session_not_active, session_expired,
  item_not_in_delivery,
}
use tao_core_go.Session.{Env}
use tao_core_go.Session.Lookup.{Loaded, get_session}
use tao_core_go.Session.Start.{start_session}
use tao_core_go.Session.Save.{save_response}
use tao_core_go.Session.Submit.{Services, Effect, submit_session}
use tao_core_go.Proctor.{record_event, get_session_proctor_log, get_proctor_analytics}

-- A status code with a body, or with an error message.
pub data Reply (A : Type 0) : Type 0 where
  json : ℕ → A → Reply A
  error : ℕ → Reply A

-- `writeSessionError`
unfoldable pub session_error_status : Error → ℕ
session_error_status session_not_found = 404
session_error_status delivery_not_found = 404
session_error_status delivery_forbidden = 403
session_error_status delivery_closed = 409
session_error_status max_attempts = 409
session_error_status session_completed = 409
session_error_status session_not_active = 409
session_error_status session_expired = 409
session_error_status item_not_in_delivery = 400
session_error_status _ = 500

-- `authenticatedUserID`: the value that the authentication has set
unfoldable pub authenticated_user_id : Option Text → Option Text
unfolding trim_space
authenticated_user_id none = none
authenticated_user_id (some user_id) = if is_empty (trim_space user_id) then none else some user_id

abbrev pub reply : {A : Type 0} → ℕ → Result A → Reply A
reply status (ok a) = json status a
reply status (err e) = error (session_error_status e)

abbrev pub plain_reply : {A : Type 0} → Result A → Reply A
plain_reply (ok a) = json 200 a
plain_reply (err e) = error 500

module _ {F : Type 0} ⦃float : Float64 F⦄ where
  -- `StartSession`, with the delivery of the request
  unfoldable pub handle_start :
      Env → Option Text → Option Text → World F → Reply (TestSession F) × World F
  handle_start env user body w = elim (authenticated_user_id user) [
    | none ↦ (error 401, w)
    | some user_id ↦ elim body [
      | none ↦ (error 400, w)
      | some delivery_id ↦
          let (r, w') = start_session env delivery_id user_id w in (reply 200 r, w')
    ]
  ]

  -- `SaveResponse`, with the item and the answer of the request
  unfoldable pub handle_save :
      Env → Text → Option Text → Option (Text × Text) → World F → Reply (ItemResponse F) × World F
  handle_save env session_id user body w = elim (authenticated_user_id user) [
    | none ↦ (error 401, w)
    | some user_id ↦ elim body [
      | none ↦ (error 400, w)
      | some (item_id, answer) ↦
          let (r, w') = save_response env session_id user_id item_id answer w in (reply 200 r, w')
    ]
  ]

  -- `SubmitSession`, with what it sets off
  unfoldable pub handle_submit :
      (ℕ → ℕ)
      → Services
      → Env
      → Text
      → Option Text
      → World F
      → (Reply (Loaded F) × List (Effect F)) × World F
  handle_submit fold services env session_id user w = elim (authenticated_user_id user) [
    | none ↦ ((error 401, []), w)
    | some user_id ↦
        let (r, w') = submit_session fold services env session_id user_id w in
        ((reply 200 r.0, r.1), w')
  ]

  -- `GetSession`
  unfoldable pub handle_get : Text → Option Text → World F → Reply (Loaded F) × World F
  handle_get session_id user w = elim (authenticated_user_id user) [
    | none ↦ (error 401, w)
    | some user_id ↦ let (r, w') = get_session session_id user_id w in (reply 200 r, w')
  ]

-- `RecordProctorEventRequest`
pub record ProctorRequest : Type 0 where
  pub event_type : ProctorEventType
  pub duration_seconds : ℤ
  pub details : Text

abbrev pub event_of : Text → ProctorRequest → ProctorEvent
event_of session_id req = record {
  id = [];
  session_id = session_id;
  event_type = req.event_type;
  duration_seconds = req.duration_seconds;
  details = req.details;
  created_at = 0;
}

module _ {F : Type 0} where
  -- `RecordEvent`
  unfoldable pub handle_record :
      Env → Text → Option Text → Option ProctorRequest → World F → Reply ProctorEvent × World F
  handle_record env session_id user body w = elim (authenticated_user_id user) [
    | none ↦ (error 401, w)
    | some user_id ↦ elim body [
      | none ↦ (error 400, w)
      | some req ↦
          let (r, w') = record_event env (event_of session_id req) user_id w in (reply 201 r, w')
    ]
  ]

  -- `GetProctorLog` and `GetProctorAnalytics`
  unfoldable pub handle_log : Text → World F → Reply (List ProctorEvent) × World F
  handle_log session_id w =
      let (r, w') = get_session_proctor_log session_id w in (plain_reply r, w')

  unfoldable pub handle_analytics : Text → World F → Reply ProctorAnalyticsSummary × World F
  handle_analytics session_id w =
      let (r, w') = get_proctor_analytics session_id w in (plain_reply r, w')
