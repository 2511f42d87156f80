-- ===== src/Handlers/Status.antt =====
-- The reply of every handler of a student's request follows from what its service does.
use tao_core_go.Prelude.{ℕ, Text, Bool, Option, if◌then◌else◌, none, some, List, [], ◌≡◌}
use tao_core_go.Float.{Float64}
use tao_core_go.Models.{TestSession, ItemResponse, ProctorEvent}
use tao_core_go.Store.{Db, World, Error}
use tao_core_go.Store.Faults.{Outcome}
use tao_core_go.Session.{Env}
use tao_core_go.Session.Lookup.{Loaded}
use tao_core_go.Session.Lookup.Reads.{IsUnknown, IsRead}
use tao_core_go.Session.Start.Outcome.{IsGranted}
use tao_core_go.Session.Start.Laws.{IsRefused}
use tao_core_go.Session.Save.Outcome as SaveOutcome
use tao_core_go.Session.Submit.{Services, Effect, notify}
use tao_core_go.Session.Submit.Outcome as SubmitOutcome
use tao_core_go.Proctor.Events
use tao_core_go.Proctor.Events.{IsRecorded}
use tao_core_go.Text.{trim_space}
use tao_core_go.Handlers.{
  Reply, json, error, session_error_status, authenticated_user_id, ProctorRequest, event_of,
}

-- A reply to a request with an identity and a body, in terms of the tables before it. Every error
-- leaves the tables as they were and sets nothing off: 401 without an identity, 400 without a body,
-- 500 where the driver fails, and otherwise the status of the reason for which the service refuses.
pub data Replied {F A B : Type 0} (user : Option Text) (body : Option B) (status : ℕ) (db : Db F)
    (Q : Text → B → Error → Type 0) (P : Text → B → A → List (Effect F) → Db F → Type 0)
    : Reply A → List (Effect F) → Db F → Type 0 where
  unauthorized :
      authenticated_user_id user ≡ none → Replied user body status db Q P (error 401) [] db
  unreadable :
      (uid : Text)
      → authenticated_user_id user ≡ some uid
      → body ≡ none
      → Replied user body status db Q P (error 400) [] db
  unavailable :
      (uid : Text) (b : B)
      → authenticated_user_id user ≡ some uid
      → body ≡ some b
      → Replied user body status db Q P (error 500) [] db
  rejected :
      (uid : Text) (b : B) (e : Error)
      → authenticated_user_id user ≡ some uid
      → body ≡ some b
      → Q uid b e
      → Replied user body status db Q P (error (session_error_status e)) [] db
  done :
      (uid : Text) (b : B) (a : A) (effects : List (Effect F)) (db' : Db F)
      → authenticated_user_id user ≡ some uid
      → body ≡ some b
      → P uid b a effects db'
      → Replied user body status db Q P (json status a) effects db'

module _ {F A B : Type 0} (user : Option Text) (b : B) (status : ℕ) (db : Db F)
    (Q : Text → B → Error → Type 0) (P : Text → B → A → Db F → Type 0) (uid : Text)
    (known : authenticated_user_id user ≡ some uid) where
  -- Where the service sets nothing off
  abbrev Silent : Text → B → A → List (Effect F) → Db F → Type 0
  Silent u c a effects db' = (effects ≡ []) × P u c a db'

module _ {F : Type 0} ⦃float : Float64 F⦄ (user : Option Text) (w : World F) where
  -- What the service has to do with the identity and the body, of each handler
  abbrev pub Starts : Env → Option Text → Reply (TestSession F) × World F → Type 0
  Starts env body x =
      Replied user body 200 w.db (λ uid did. IsRefused env did uid w)
        (λ uid did session effects db'.
          (effects ≡ []) × IsGranted env (trim_space did) (trim_space uid) w.db session db')
        x.0 [] x.1.db

  abbrev pub Saves : Env → Text → Option (Text × Text) → Reply (ItemResponse F) × World F → Type 0
  Saves env sid body x =
      Replied user body 200 w.db (λ uid b. SaveOutcome.Refused env sid uid b.0 b.1 w.db)
        (λ uid b row effects db'.
          (effects ≡ []) × SaveOutcome.IsAccepted env sid uid b.0 b.1 w.db row db')
        x.0 [] x.1.db

  -- A submission that completes the session sets off what the services are told, and no other does.
  abbrev pub Submits :
      (ℕ → ℕ) → Services → Env → Text → (Reply (Loaded F) × List (Effect F)) × World F → Type 0
  Submits fold services env sid x =
      Replied {B = Unit} user (some tt) 200 w.db
        (λ uid b. SubmitOutcome.Refused fold env sid uid w.db)
        (λ uid b loaded effects db'.
          (did_complete : Bool) × SubmitOutcome.Submitted fold env sid uid w.db
            (loaded, did_complete) db'
          × (effects ≡ (if did_complete then notify services loaded else [])))
        x.0.0 x.0.1 x.1.db

  abbrev pub Gets : Text → Reply (Loaded F) × World F → Type 0
  Gets sid x =
      Replied {B = Unit} user (some tt) 200 w.db (λ uid b. IsUnknown sid uid w.db)
        (λ uid b loaded effects db'. (effects ≡ []) × IsRead sid uid w.db loaded db') x.0 [] x.1.db

  abbrev pub Records : Env → Text → Option ProctorRequest → Reply ProctorEvent × World F → Type 0
  Records env sid body x =
      Replied user body 201 w.db (λ uid req. Events.Refused env (event_of sid req) uid w.db)
        (λ uid req event effects db'.
          (effects ≡ []) × IsRecorded env (event_of sid req) uid w.db event db')
        x.0 [] x.1.db
