-- ===== src/Store/Faults.antt =====
-- What driver errors can do: either the call returns the driver's error, or it does what it does
-- when no call fails. Rules for each way to build a function on the database.
use mathlib.Core.Path.{subst, subst₂}
use tao_core_go.Prelude.{
  Bool, true, false, List, [], ◌∷◌, ◌≡◌, refl, sym, ◌⊎◌, inl, inr, Option, arith, if◌then◌else◌,
}
use tao_core_go.Store.{
  Error, driver, Result, ok, err, Db, World, Tx, pure, raise, attempt, finish, attempt_on, query,
  first, write, transaction, close, continue, ◌>>=◌, quiet, found,
}

module _ {F A : Type 0} where
  -- Two outcomes are the same but for what is left of the plan.
  abbrev pub SameOutcome : Result A × World F → Result A × World F → Type 0
  SameOutcome x y = (x.0 ≡ y.0) × (x.1.db ≡ y.1.db)

  pub record IsRobust (m : Tx F A) : Type 0 where
    -- no call fails past the end of the plan
    pub stays_quiet : (db : Db F) → (m (quiet db)).1.faults ≡ []
    pub agrees : (w : World F) → ((m w).0 ≡ err driver) ⊎ SameOutcome (m w) (m (quiet w.db))

  pub IsRobust-pure : (a : A) → IsRobust (pure a)
  IsRobust-pure a = record { stays_quiet = λ db. refl; agrees = λ w. inr (refl, refl) }

  pub IsRobust-raise : (e : Error) → IsRobust (raise e)
  IsRobust-raise e = record { stays_quiet = λ db. refl; agrees = λ w. inr (refl, refl) }

  finish-SameOutcome :
      (r : Result (A × Db F)) (db : Db F) (fs gs : List Bool)
      → SameOutcome
          (finish r (record { db = db; faults = fs }))
          (finish r (record { db = db; faults = gs }))
  finish-SameOutcome (ok (a, db')) db fs gs = (refl, refl)
  finish-SameOutcome (err e) db fs gs = (refl, refl)

  finish_faults : (r : Result (A × Db F)) (w : World F) → (finish r w).1.faults ≡ w.faults
  finish_faults (ok (a, db)) w = refl
  finish_faults (err e) w = refl

  attempt_on-agrees :
      (f : Db F → Result (A × Db F)) (db : Db F) (fs : List Bool)
      → ((attempt_on f db fs).0 ≡ err driver)
        ⊎ SameOutcome (attempt_on f db fs) (attempt_on f db [])
  attempt_on-agrees f db [] = inr (refl, refl)
  attempt_on-agrees f db (false ∷ fs) = inr (finish-SameOutcome (f db) db fs [])
  attempt_on-agrees f db (true ∷ fs) = inl refl

  pub IsRobust-attempt : (f : Db F → Result (A × Db F)) → IsRobust (attempt f)
  unfolding attempt
  IsRobust-attempt f = record {
    stays_quiet = λ db. finish_faults (f db) (quiet db);
    agrees = λ w. attempt_on-agrees f w.db w.faults;
  }

  pub IsRobust-query : (f : Db F → A) → IsRobust (query f)
  unfolding query
  IsRobust-query f = IsRobust-attempt (λ db. ok (f db, db))

  pub IsRobust-first : (e : Error) (f : Db F → Option A) → IsRobust (first e f)
  unfolding first
  IsRobust-first e f = IsRobust-attempt (λ db. found e (f db) db)

  pub IsRobust-write : (f : Db F → Result (A × Db F)) → IsRobust (write f)
  unfolding write
  IsRobust-write f = IsRobust-attempt f

  pub IsRobust-if :
      (b : Bool) (m n : Tx F A) → IsRobust m → IsRobust n → IsRobust (if b then m else n)
  IsRobust-if true m n km kn = km
  IsRobust-if false m n km kn = kn

  -- A failed transaction leaves the tables as they were.
  close_err :
      (w w' : World F) (r : Result A) (e : Error)
      → (close w r w').0 ≡ err e
      → (close w r w').1.db ≡ w.db
  close_err w w' (err e') e h = refl
  close_err w w' (ok a) e h = ground arith

  pub transaction_atomic :
      (m : Tx F A) (w : World F) (e : Error)
      → (transaction m w).0 ≡ err e
      → (transaction m w).1.db ≡ w.db
  unfolding transaction
  transaction_atomic m w e h = close_err w (m w).1 (m w).0 e h

  close-agrees :
      (w w' w₀ : World F) (r r₀ : Result A)
      → (r ≡ err driver) ⊎ ((r ≡ r₀) × (w'.db ≡ w₀.db))
      → w₀.faults ≡ []
      → ((close w r w').0 ≡ err driver) ⊎ SameOutcome (close w r w') (close (quiet w.db) r₀ w₀)
  close-agrees w w' w₀ (err e) (err e₀) h q = ground arith
  close-agrees w w' w₀ (err e) (ok a₀) h q = ground arith
  close-agrees w w' w₀ (ok a) (err e₀) h q = ground arith
  close-agrees w w' w₀ (ok a) (ok a₀) h q = ground arith

  close_faults : (w w₀ : World F) (r : Result A) → w₀.faults ≡ [] → (close w r w₀).1.faults ≡ []
  close_faults w w₀ (err e) q = q
  close_faults w w₀ (ok a) q = ground arith

  pub IsRobust-transaction : (m : Tx F A) → IsRobust m → IsRobust (transaction m)
  unfolding transaction
  IsRobust-transaction m k = record {
    stays_quiet =
        λ db. close_faults (quiet db) (m (quiet db)).1 (m (quiet db)).0 (k.stays_quiet db);
    agrees = λ w.
        close-agrees w (m w).1 (m (quiet w.db)).1 (m w).0 (m (quiet w.db)).0 (k.agrees w)
          (k.stays_quiet w.db);
  }

module _ {F A B : Type 0} where
  continue_faults :
      (f : A → Tx F B)
      → ((a : A) → IsRobust (f a))
      → (r : Result A) (w : World F) → w.faults ≡ []
      → (continue r f w).1.faults ≡ []
  continue_faults f k (err e) w q = q
  continue_faults f k (ok a) w q =
      subst (λ fs. (f a (record { db = w.db; faults = fs })).1.faults ≡ []) (sym q)
        ((k a).stays_quiet w.db)

  -- The rest of a block, run after an outcome and after the quiet run's.
  continue-agrees :
      (f : A → Tx F B)
      → ((a : A) → IsRobust (f a))
      → (r r₀ : Result A) (w w₀ : World F) → (r ≡ err driver) ⊎ ((r ≡ r₀) × (w.db ≡ w₀.db))
      → w₀.faults ≡ []
      → ((continue r f w).0 ≡ err driver) ⊎ SameOutcome (continue r f w) (continue r₀ f w₀)
  continue-agrees f k r r₀ w w₀ (inl failed) q = inl (rw failed)
  continue-agrees f k (err e) r₀ w w₀ (inr (same, dbs)) q = rw (← same) (inr (refl, dbs))
  continue-agrees f k (ok a) r₀ w w₀ (inr (same, dbs)) q =
      let e : w₀ ≡ quiet w.db = λ i. record { db = sym dbs i; faults = q i } in
      rw (← same, e) ((k a).agrees w)

  pub IsRobust-bind :
      (m : Tx F A) (f : A → Tx F B) → IsRobust m → ((a : A) → IsRobust (f a)) → IsRobust (m >>= f)
  IsRobust-bind m f km kf = record {
    stays_quiet = λ db. continue_faults f kf (m (quiet db)).0 (m (quiet db)).1 (km.stays_quiet db);
    agrees = λ w.
        continue-agrees f kf (m w).0 (m (quiet w.db)).0 (m w).1 (m (quiet w.db)).1 (km.agrees w)
          (km.stays_quiet w.db);
  }

pub ruleset robust_rules = (
  IsRobust-pure, IsRobust-raise, IsRobust-query, IsRobust-first, IsRobust-write, IsRobust-if,
  IsRobust-bind,
)

-- A transaction either does what its quiet run does, or fails with the driver's error and leaves
-- the tables as they were.
pub transaction_outcome :
    {F A : Type 0} (m : Tx F A)
    → IsRobust m
    → (w : World F)
    → (((transaction m w).0 ≡ err driver) × ((transaction m w).1.db ≡ w.db))
      ⊎ SameOutcome (transaction m w) (transaction m (quiet w.db))
transaction_outcome m k w = elim ((IsRobust-transaction m k).agrees w) [
  | inl failed ↦ inl (failed, transaction_atomic m w driver failed)
  | inr same ↦ inr same
]

-- To prove an outcome of a transaction for every plan of faults, prove it of the body's quiet run;
-- an outcome with an error must not depend on the tables that are rolled back.
module _ {F A : Type 0} (m : Tx F A) (k : IsRobust m) (P : Result A → Db F → Type 0) where
  close_outcome :
      (db : Db F) (r : Result A) (w₀ : World F)
      → ((e : Error) (db' : Db F) → P (err e) db' → P (err e) db)
      → w₀.faults ≡ []
      → P r w₀.db
      → P (close (quiet db) r w₀).0 (close (quiet db) r w₀).1.db
  close_outcome db (err e) w₀ back q p = back e w₀.db p
  close_outcome db (ok a) w₀ back q p = rw q p

  pub transaction_lift :
      (w : World F)
      → ((e : Error) (db' : Db F) → P (err e) db' → P (err e) w.db)
      → P (m (quiet w.db)).0 (m (quiet w.db)).1.db
      → (((transaction m w).0 ≡ err driver) × ((transaction m w).1.db ≡ w.db))
        ⊎ P (transaction m w).0 (transaction m w).1.db
  unfolding transaction
  transaction_lift w back p = elim (transaction_outcome m k w) [
    | inl failed ↦ inl failed
    | inr same ↦ inr (
        subst₂ P (sym same.0) (sym same.1)
          (close_outcome w.db (m (quiet w.db)).0 (m (quiet w.db)).1 back (k.stays_quiet w.db) p))
  ]

-- The outcomes of a call in terms of the tables before it: the driver fails, or the call is
-- refused for a reason, both with the tables unchanged, or it succeeds.
pub data Outcome {F A : Type 0} (db : Db F) (Q : Error → Type 0) (P : A → Db F → Type 0)
    : Result A → Db F → Type 0 where
  driver_failed : Outcome db Q P (err driver) db
  refused : (e : Error) → Q e → Outcome db Q P (err e) db
  succeeded : (a : A) (db' : Db F) → P a db' → Outcome db Q P (ok a) db'

-- What the quiet run of a body has to satisfy: an error its reason, a success its condition.
abbrev pub Body : {F A : Type 0} → (Error → Type 0) → (A → Db F → Type 0) → Result A → Db F → Type 0
Body Q P (err e) db' = Q e
Body Q P (ok a) db' = P a db'

module _ {F A : Type 0} (m : Tx F A) (k : IsRobust m) (Q : Error → Type 0)
    (P : A → Db F → Type 0) where
  from_Body :
      (db : Db F) (r : Result A) (db' : Db F)
      → ((e : Error) → r ≡ err e → db' ≡ db)
      → Body Q P r db'
      → Outcome db Q P r db'
  from_Body db (err e) db' back q = rw (back e refl) (refused e q)
  from_Body db (ok a) db' back p = succeeded a db' p

  from_failure :
      (db : Db F) (r : Result A) (db' : Db F) → r ≡ err driver → db' ≡ db → Outcome db Q P r db'
  from_failure db r db' e same = rw (e, same) driver_failed

  pub transaction-Outcome :
      (w : World F)
      → Body Q P (m (quiet w.db)).0 (m (quiet w.db)).1.db
      → Outcome w.db Q P (transaction m w).0 (transaction m w).1.db
  transaction-Outcome w p = elim (transaction_lift m k (Body Q P) w (λ e db' q. q) p) [
    | inl failed ↦ from_failure w.db _ _ failed.0 failed.1
    | inr done ↦ from_Body w.db _ _ (λ e. transaction_atomic m w e) done
  ]
