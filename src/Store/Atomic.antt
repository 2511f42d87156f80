-- ===== src/Store/Atomic.antt =====
-- Functions that write once, outside a transaction: where they fail they have changed nothing.
use tao_core_go.Prelude.{
  Bool, true, false, List, [], ◌∷◌, ◌≡◌, refl, ◌∙◌, inl, inr, Option, arith, if◌then◌else◌,
}
use tao_core_go.Store.{
  Error, driver, Result, ok, err, Db, World, Tx, pure, raise, attempt, finish, attempt_on, first,
  write, continue, ◌>>=◌, quiet, found,
}
use tao_core_go.Store.Faults.{IsRobust, Outcome, driver_failed, refused, succeeded, Body}

module _ {F A : Type 0} where
  pub record IsReadOnly (m : Tx F A) : Type 0 where
    pub same : (w : World F) → (m w).1.db ≡ w.db

  pub record IsAtomic (m : Tx F A) : Type 0 where
    pub undone : (w : World F) (e : Error) → (m w).0 ≡ err e → (m w).1.db ≡ w.db

  pub IsAtomic-pure : (a : A) → IsAtomic (pure a)
  IsAtomic-pure a = record { undone = λ w e h. refl }

  pub IsAtomic-raise : (e : Error) → IsAtomic (raise e)
  IsAtomic-raise e = record { undone = λ w e' h. refl }

  finish_undone :
      (r : Result (A × Db F)) (w : World F) (e : Error)
      → (finish r w).0 ≡ err e
      → (finish r w).1.db ≡ w.db
  finish_undone (ok (a, db)) w e h = cc
  finish_undone (err e') w e h = refl

  attempt_undone :
      (f : Db F → Result (A × Db F)) (db : Db F) (fs : List Bool) (e : Error)
      → (attempt_on f db fs).0 ≡ err e
      → (attempt_on f db fs).1.db ≡ db
  attempt_undone f db [] e h = finish_undone (f db) (quiet db) e h
  attempt_undone f db (false ∷ fs) e h = finish_undone (f db) (record { db = db; faults = fs }) e h
  attempt_undone f db (true ∷ fs) e h = refl

  pub IsAtomic-write : (f : Db F → Result (A × Db F)) → IsAtomic (write f)
  unfolding write attempt
  IsAtomic-write f = record { undone = λ w e h. attempt_undone f w.db w.faults e h }

  read_same :
      (f : Db F → Option A) (e : Error) (db : Db F) (fs : List Bool)
      → (attempt_on (λ db'. found e (f db') db') db fs).1.db ≡ db
  read_same f e db [] = ground arith
  read_same f e db (false ∷ fs) = ground arith
  read_same f e db (true ∷ fs) = refl

  pub IsReadOnly-first : (e : Error) (f : Db F → Option A) → IsReadOnly (first e f)
  unfolding first attempt
  IsReadOnly-first e f = record { same = λ w. read_same f e w.db w.faults }

  pub IsAtomic-if :
      (b : Bool) (m n : Tx F A) → IsAtomic m → IsAtomic n → IsAtomic (if b then m else n)
  IsAtomic-if true m n km kn = km
  IsAtomic-if false m n km kn = kn

module _ {F A B : Type 0} where
  continue_undone :
      (f : A → Tx F B)
      → ((a : A) → IsAtomic (f a))
      → (r : Result A) (w : World F) (e : Error) → (continue r f w).0 ≡ err e
      → (continue r f w).1.db ≡ w.db
  continue_undone f k (ok a) w e h = (k a).undone w e h
  continue_undone f k (err e') w e h = refl

  -- What is read first changes nothing.
  pub IsAtomic-read :
      (m : Tx F A) (f : A → Tx F B) → IsReadOnly m → ((a : A) → IsAtomic (f a)) → IsAtomic (m >>= f)
  IsAtomic-read m f km kf = record {
    undone = λ w e h. continue_undone f kf (m w).0 (m w).1 e h ∙ km.same w;
  }

  pure_err :
      (g : A → B) (r : Result A) (w : World F) (e : Error)
      → (continue r (λ a. pure (g a)) w).0 ≡ err e
      → (r ≡ err e) × ((continue r (λ a. pure (g a)) w).1.db ≡ w.db)
  pure_err g (ok a) w e h = cc
  pure_err g (err e') w e h = (cc, refl)

  -- What is computed afterwards does not fail.
  pub IsAtomic-map : (m : Tx F A) (g : A → B) → IsAtomic m → IsAtomic (m >>= (λ a. pure (g a)))
  IsAtomic-map m g k = record {
    undone =
        λ w e h. let (failed, same) = pure_err g (m w).0 (m w).1 e h in same ∙ k.undone w e failed;
  }

module _ {F A : Type 0} (m : Tx F A) (Q : Error → Type 0) (P : A → Db F → Type 0) where
  from_quiet :
      (db db₀ db' : Db F) (r r₀ : Result A)
      → r ≡ r₀
      → db' ≡ db₀
      → ((e : Error) → r ≡ err e → db' ≡ db)
      → Body Q P r₀ db₀
      → Outcome db Q P r db'
  from_quiet db db₀ db' r (err e) same kept back q = rw (back e same, same) (refused e q)
  from_quiet db db₀ db' r (ok a) same kept back p = rw (same, kept) (succeeded a db₀ p)

  pub atomic-Outcome :
      IsRobust m
      → IsAtomic m
      → (w : World F) → Body Q P (m (quiet w.db)).0 (m (quiet w.db)).1.db
      → Outcome w.db Q P (m w).0 (m w).1.db
  atomic-Outcome robust atomic w p = elim (robust.agrees w) [
    | inl failed ↦ rw (atomic.undone w driver failed, failed) driver_failed
    | inr (same, kept) ↦ from_quiet w.db _ _ _ _ same kept (atomic.undone w) p
  ]

module _ {F : Type 0} where
  -- What holds of the tables before, and after every success, holds after every outcome.
  pub Outcome-keeps :
      {A : Type 0} (db : Db F) (Q : Error → Type 0) (P : A → Db F → Type 0) (K : Db F → Type 0)
      → K db
      → ((a : A) (db' : Db F) → P a db' → K db')
      → (r : Result A) (db' : Db F) → Outcome db Q P r db'
      → K db'
  Outcome-keeps db Q P K k then_too r db' driver_failed = k
  Outcome-keeps db Q P K k then_too r db' (refused e q) = k
  Outcome-keeps db Q P K k then_too r db' (succeeded a _ p) = then_too a db' p
