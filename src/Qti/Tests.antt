-- ===== src/Qti/Tests.antt =====
-- A package with a picture and one question.
use tao_core_go.Prelude.{
  ℕ, ◌+◌, true, false, some, List, [], ◌∷◌, ◌≡◌, ◌↔◌, leb, ltb, length, codes,
}
use tao_core_go.Prelude.Int.{pos}
use tao_core_go.Float.{Float64}
use tao_core_go.Models.{Item, single_choice, ItemOption}
use tao_core_go.Store.{Db, quiet}
use tao_core_go.Qti.{ZipFile, Package, AssessmentItem, QtiLib}
use tao_core_go.Qti.Limits.{open_package}
use tao_core_go.Qti.Limits.Bounds.{IsWithinLimits, open_package-IsWithinLimits}
use tao_core_go.Qti.Media.{Disk}
use tao_core_go.Qti.Items.{ItemEnv}
use tao_core_go.Qti.Import.{ImportEnv, import_qti_package}
use tao_core_go.Qti.Import.Laws.{Ends, import_qti_package-Ends}

instance abbrev whole : Float64 ℕ
whole = record {
  zero = 0;
  one = 1;
  million = 1_000_000;
  add = λ x y. x + y;
  mul = λ x y. x;
  le = leb;
  lt = ltb;
  is_nan = λ x. false;
  is_inf = λ x. false;
}

abbrev choices : List ItemOption
choices =
    record { identifier = codes "x"; text = codes " one" }
    ∷ record { identifier = codes "y"; text = codes "two" }
    ∷ []

abbrev question : AssessmentItem ℕ
question = record {
  identifier = codes "q1";
  title = codes "Q";
  correct_response = codes "y" ∷ [];
  default_value = 0;
  response_identifier = codes "R";
  max_choices = pos 1;
  prompt = [];
  simple_choices = choices;
}

abbrev qti : QtiLib ℕ
qti = record {
  to_lower = λ t. t;
  detect_content_type = λ bs. codes "image/png";
  unmarshal = λ bs. some question;
  marshal_options = λ os. length os ∷ [];
  visit = λ m. m;
}

-- Every draw is 0.
abbrev item_env : ItemEnv
item_env = record { draw = λ i. some 0; new_id = codes "n" }

abbrev imported : Item ℕ
imported = record {
  id = codes "q1";
  title = codes "Q";
  prompt = codes "Q";
  item_type = single_choice;
  options_json = 2 ∷ [];
  correct_answer = codes "A";
  max_score = 1;
  layout_hint = [];
}

abbrev picture : ZipFile
picture = record {
  name = codes "img/a.png";
  uncompressed_size = 3;
  compressed_size = 3;
  opened = some (record { bytes = 1 ∷ 2 ∷ 3 ∷ []; broken = false });
}

abbrev xml : ZipFile
xml = record {
  name = codes "q.xml";
  uncompressed_size = 2;
  compressed_size = 2;
  opened = some (record { bytes = 1 ∷ 2 ∷ []; broken = false });
}

abbrev upload : Package
upload = record { is_regular = true; size = 100; files = some (picture ∷ xml ∷ []) }

open_package-IsWithinLimits_example :
    (open_package upload ≡ some (picture ∷ xml ∷ [])) ↔ IsWithinLimits upload (picture ∷ xml ∷ [])
open_package-IsWithinLimits_example = open_package-IsWithinLimits upload (picture ∷ xml ∷ [])

abbrev import_env : ImportEnv
import_env = record { root = codes "/media"; file_id = λ i. i ∷ []; item_env = λ i. item_env }

abbrev disk : Disk
disk = record { files = []; faults = [] }

abbrev tables : Db ℕ
tables = record {
  deliveries = [];
  tests = [];
  test_sections = [];
  test_items = [];
  items = [];
  delivery_groups = [];
  user_groups = [];
  sessions = [];
  responses = [];
  proctor_events = [];
  lti = record { platforms = []; states = []; resource_links = []; link_sessions = [] };
  webhooks = record { configs = []; logs = [] };
}

import_qti_package-Ends_example :
    Ends qti import_env upload disk
      (quiet tables)
      (import_qti_package qti import_env upload disk (quiet tables))
import_qti_package-Ends_example = import_qti_package-Ends qti import_env upload disk (quiet tables)
