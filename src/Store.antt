-- ===== src/Store.antt =====
-- The database as the services use it through gorm. A table is the list of its rows in the order
-- of the primary key, in which `First` reads them. Every call can fail with a driver error: the
-- world carries, beside the tables, the plan of the calls that will fail, and a theorem that holds
-- for every plan holds whatever the driver does. `Transaction` restores the tables on an error.
pub mod Faults
pub mod Atomic
pub mod Frame
pub mod Preserved
use tao_core_go.Prelude.{Text, Bool, true, false, Option, none, some, List, [], ◌∷◌}
use tao_core_go.Models.{
  Item, Test, TestSection, TestItem, Delivery, UserGroup, DeliveryGroup, TestSession, ItemResponse,
  ProctorEvent, LtiTables, WebhookTables,
}

-- The errors of the services; `driver` is any error of the database that gorm passes on.
pub data Error : Type 0 where
  session_not_found session_completed session_not_active session_expired : Error
  delivery_not_found delivery_closed delivery_forbidden max_attempts item_not_in_delivery : Error
  invalid_score_setting score_overflow invalid_proctor_event : Error
  platform_not_found invalid_lti_state invalid_lti_token invalid_lti_request : Error
  resource_link_missing : Error
  -- an error made on the spot, which no caller tests for
  rejected : Error
  record_not_found duplicated_key driver : Error

pub data Result (A : Type 0) : Type 0 where
  ok : A → Result A
  err : Error → Result A

-- The tables that the modelled services read and write.
pub record Db (F : Type 0) : Type 0 where
  pub deliveries : List Delivery
  pub tests : List Test
  pub test_sections : List TestSection
  pub test_items : List (TestItem F)
  pub items : List (Item F)
  pub delivery_groups : List DeliveryGroup
  pub user_groups : List UserGroup
  pub sessions : List (TestSession F)
  pub responses : List (ItemResponse F)
  pub proctor_events : List ProctorEvent
  pub lti : LtiTables
  pub webhooks : WebhookTables

pub record World (F : Type 0) : Type 0 where
  pub db : Db F
  -- `true` where a call fails; past the end of the plan no call fails
  pub faults : List Bool

-- A function that works on the database and returns a result or an error.
abbrev pub Tx : Type 0 → Type 0 → Type 0
Tx F A = World F → Result A × World F

module _ {F A : Type 0} where
  abbrev pub pure : A → Tx F A
  pure a w = (ok a, w)

  abbrev pub raise : Error → Tx F A
  raise e w = (err e, w)

  abbrev finish : Result (A × Db F) → World F → Result A × World F
  finish (ok (a, db)) w = (ok a, record w { db = db })
  finish (err e) w = (err e, w)

  abbrev attempt_on : (Db F → Result (A × Db F)) → Db F → List Bool → Result A × World F
  attempt_on f db [] = finish (f db) (record { db = db; faults = [] })
  attempt_on f db (false ∷ fs) = finish (f db) (record { db = db; faults = fs })
  attempt_on f db (true ∷ fs) = (err driver, record { db = db; faults = fs })

  -- One call of the database.
  unfoldable pub attempt : (Db F → Result (A × Db F)) → Tx F A
  attempt f w = attempt_on f w.db w.faults

module _ {F A : Type 0} where
  abbrev found : Error → Option A → Db F → Result (A × Db F)
  found e none db = err e
  found e (some a) db = ok (a, db)

  -- `Find`, `Count` and `Scan`
  unfoldable pub query : (Db F → A) → Tx F A
  unfolding attempt
  query f = attempt (λ db. ok (f db, db))

  -- `First`, where the caller turns `gorm.ErrRecordNotFound` into the error `e`
  unfoldable pub first : Error → (Db F → Option A) → Tx F A
  unfolding attempt
  first e f = attempt (λ db. found e (f db) db)

  -- `Create`, `Save` and `Updates`, with the rows affected or another result
  unfoldable pub write : (Db F → Result (A × Db F)) → Tx F A
  unfolding attempt
  write f = attempt f

  abbrev close : World F → Result A → World F → Result A × World F
  close w (err e) w' = (err e, record w' { db = w.db })
  close w (ok a) w' = elim w'.faults [
    | [] ↦ (ok a, w')
    | fault ∷ fs ↦ elim fault [
      | true ↦ (err driver, record { db = w.db; faults = fs })
      | false ↦ (ok a, record { db = w'.db; faults = fs })
    ]
  ]

  -- `db.Transaction(f)`: commit, which may fail too, or roll back.
  unfoldable pub transaction : Tx F A → Tx F A
  transaction m w = let (r, w') = m w in close w r w'

module _ {F A B : Type 0} where
  abbrev pub continue : Result A → (A → Tx F B) → Tx F B
  continue (ok a) f w = f a w
  continue (err e) f w = (err e, w)

  infixl 5 ◌>>=◌ ◌>>◌
  abbrev pub ◌>>=◌ : Tx F A → (A → Tx F B) → Tx F B
  ◌>>=◌ m f w = let (r, w') = m w in continue r f w'

  abbrev pub ◌>>◌ : Tx F A → Tx F B → Tx F B
  m >> n = m >>= λ _. n

-- A world in which no call fails.
abbrev pub quiet : {F : Type 0} → Db F → World F
quiet db = record { db = db; faults = [] }
