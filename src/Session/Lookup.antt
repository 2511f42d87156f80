-- ===== src/Session/Lookup.antt =====
-- The queries that several operations share: the session of a user, with its responses, and the
-- question that a delivery asks; and `GetSession`, which is the first of these.
pub mod Faults
pub mod Reads
use tao_core_go.Prelude.{
  ℕ, Text, Bool, true, false, ◌&&◌, Option, none, some, List, [], ◌==◌, text_eq_instance, text_eq,
  find, filter, any, if◌then◌else◌,
}
use tao_core_go.Float.{Float64}
use tao_core_go.Models.{
  Item, other_type, TestItem, TestSection, Delivery, TestSession, ItemResponse, SessionStatus,
  completed, in_progress, status_eq_instance,
}
use tao_core_go.Store.{
  Db, Tx, Error, session_not_found, session_completed, session_not_active, item_not_in_delivery,
  pure, raise, query, first, ◌>>=◌, ◌>>◌,
}

-- A session with its preloaded responses.
pub record Loaded (F : Type 0) : Type 0 where
  pub session : TestSession F
  pub responses : List (ItemResponse F)

module _ {F : Type 0} where
  unfoldable pub owned : Text → Text → TestSession F → Bool
  owned session_id user_id s = s.id == session_id && s.user_id == user_id

  -- Where("id = ? AND user_id = ?").First
  unfoldable pub find_owned : Text → Text → Tx F (TestSession F)
  unfolding first
  find_owned session_id user_id =
      first session_not_found (λ db. find (owned session_id user_id) db.sessions)

  unfoldable pub responses_of : Text → Db F → List (ItemResponse F)
  responses_of session_id db = filter (λ r. r.session_id == session_id) db.responses

  unfoldable pub load_responses : TestSession F → Tx F (Loaded F)
  unfolding query
  load_responses session = do
    responses ← query (responses_of session.id)
    pure (record { session = session; responses = responses })

  unfoldable pub get_session : Text → Text → Tx F (Loaded F)
  unfolding find_owned load_responses
  get_session session_id user_id = do
    session ← find_owned session_id user_id
    load_responses session

  -- Some delivery of that id is of the test of the section.
  unfoldable pub section_in_delivery : Text → Db F → TestSection → Bool
  section_in_delivery delivery_id db section =
      any (λ d. d.id == delivery_id && d.test_id == section.test_id) db.deliveries

  -- JOIN test_sections, JOIN deliveries, WHERE deliveries.id = ? AND test_items.item_id = ?
  unfoldable pub asks : Text → Text → Db F → TestItem F → Bool
  unfolding section_in_delivery
  asks delivery_id item_id db ti =
      ti.item_id == item_id
      && any (λ s. s.id == ti.section_id && section_in_delivery delivery_id db s) db.test_sections

  unfoldable pub lookup_test_item : Text → Text → Db F → Option (TestItem F)
  lookup_test_item delivery_id item_id db = find (asks delivery_id item_id db) db.test_items

module _ {F : Type 0} ⦃float : Float64 F⦄ where
  -- The zero value that stands where `Preload` finds no row.
  abbrev pub zero_item : Item F
  zero_item = record {
    id = [];
    title = [];
    prompt = [];
    item_type = other_type [];
    options_json = [];
    correct_answer = [];
    max_score = float.zero;
    layout_hint = [];
  }

  abbrev or_zero_item : Option (Item F) → Item F
  or_zero_item none = zero_item
  or_zero_item (some item) = item

  unfoldable pub preload_item : TestItem F → Db F → Item F
  preload_item ti db = or_zero_item (find (λ i. i.id == ti.item_id) db.items)

  -- `findDeliveryTestItem`
  unfoldable pub find_delivery_test_item : Text → Text → Tx F (TestItem F × Item F)
  unfolding first query
  find_delivery_test_item delivery_id item_id = do
    ti ← first item_not_in_delivery (lookup_test_item delivery_id item_id)
    item ← query (preload_item ti)
    pure (ti, item)

  -- `ensureItemBelongsToDelivery`
  unfoldable pub ensure_item_belongs_to_delivery : Text → Text → Tx F Unit
  unfolding find_delivery_test_item
  ensure_item_belongs_to_delivery delivery_id item_id = do
    found ← find_delivery_test_item delivery_id item_id
    pure tt
