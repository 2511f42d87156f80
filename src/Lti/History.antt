-- ===== src/Lti/History.antt =====
-- Histories of logins and launches, in the order in which they are served, each with its own clock
-- and random identifiers; the driver's faults and the cache of keys run through the whole history.
pub mod Logins
pub mod Once
use tao_core_go.Prelude.{
  ℕ, Text, Bool, true, false, ◌&&◌, List, [], ◌∷◌, ◌++◌, ◌==◌, text_eq_instance,
}
use tao_core_go.Float.{Float64}
use tao_core_go.Models.{TestSession}
use tao_core_go.Store.{World, Result, ok, err}
use tao_core_go.Lti.{Lib}
use tao_core_go.Lti.Keys.{Cache}
use tao_core_go.Lti.Login.{LoginEnv, initiate_login}
use tao_core_go.Lti.Launch.{LaunchEnv, handle_launch}

pub data Call : Type 0 where
  login_call : LoginEnv → Text → Text → Text → Text → Text → Call
  launch_call : LaunchEnv → Text → Text → Call

-- A launch that was served: its state, and whether it opened a session
abbrev pub Served : Type 0
Served = Text × Bool

abbrev pub is_ok : {A : Type 0} → Result A → Bool
is_ok (ok a) = true
is_ok (err e) = false

module _ {F : Type 0} ⦃float : Float64 F⦄ (lib : Lib) where
  unfoldable pub serve : Call → Cache → World F → List Served × Cache × World F
  serve (login_call env issuer client_id target_link_uri login_hint message_hint) cache w = (
    [],
    cache,
    (initiate_login lib env issuer client_id target_link_uri login_hint message_hint w).1,
  )
  serve (launch_call env id_token state) cache w =
      let (x, cache') = handle_launch lib env cache id_token state w in
      ((state, is_ok x.0) ∷ [], cache', x.1)

  unfoldable pub serve_all : List Call → Cache → World F → List Served
  serve_all [] cache w = []
  serve_all (call ∷ calls) cache w =
      let (served, cache', w') = serve call cache w in served ++ serve_all calls cache' w'

-- The launch with this state opened a session.
abbrev pub is_opened : Text → Served → Bool
is_opened state served = served.0 == state && served.1
