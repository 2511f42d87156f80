-- ===== src/Handlers/Tests.antt =====
-- The requests of a student.
use tao_core_go.Prelude.{ℕ, Text, Option, ◌+◌, ◌*◌, true, false, some, [], codes, leb, ltb}
use tao_core_go.Float.{Float64}
use tao_core_go.Store.{Db}
use tao_core_go.Session.{Env}
use tao_core_go.Session.Submit.{Services}

instance abbrev whole : Float64 ℕ
whole = record {
  zero = 0;
  one = 1;
  million = 1_000_000;
  add = λ x y. x + y;
  mul = λ x y. x * y;
  le = leb;
  lt = ltb;
  is_nan = λ x. false;
  is_inf = λ x. false;
}

abbrev empty : Db ℕ
empty = record {
  deliveries = [];
  tests = [];
  test_sections = [];
  test_items = [];
  items = [];
  delivery_groups = [];
  user_groups = [];
  sessions = [];
  responses = [];
  proctor_events = [];
  lti = record { platforms = []; states = []; resource_links = []; link_sessions = [] };
  webhooks = record { configs = []; logs = [] };
}

abbrev services : Services
services = record { event_bus = true; webhook_service = true; lti_service = true }

abbrev student : Option Text
student = some (codes "ann")

abbrev env : Env
env = record { checked_at = 1; now = 1; new_id = codes "n" }
