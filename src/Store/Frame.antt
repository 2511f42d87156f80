-- ===== src/Store/Frame.antt =====
-- What a function on the database leaves alone, and rules to reason about its calls in order.
use tao_core_go.Prelude.{
  Bool, true, false, List, [], ◌∷◌, ◌≡◌, refl, ◌∙◌, ◌⊎◌, inl, inr, Option, none, some, Bool-cases,
  if◌then◌else◌,
}
use tao_core_go.Store.{
  Error, driver, Result, ok, err, Db, World, Tx, pure, raise, attempt, finish, attempt_on, query,
  first, write, transaction, close, continue, ◌>>=◌, found,
}

pub Result-cases :
    {A : Type 0} (r : Result A) → ((e : Error) × (r ≡ err e)) ⊎ ((a : A) × (r ≡ ok a))
Result-cases (ok a) = inr (a, refl)
Result-cases (err e) = inl (e, refl)

Faults-cases : (fs : List Bool) → (fs ≡ []) ⊎ ((b : Bool) × (gs : List Bool) × (fs ≡ b ∷ gs))
Faults-cases [] = inl refl
Faults-cases (b ∷ gs) = inr (b, gs, refl)

module _ {F A : Type 0} where
  attempt_on-ok :
      (f : Db F → Result (A × Db F)) (db : Db F) (fs : List Bool) (a : A)
      → (attempt_on f db fs).0 ≡ ok a
      → f db ≡ ok (a, (attempt_on f db fs).1.db)
  attempt_on-ok f db [] a h = elim (Result-cases (f db)) [
    | inl (e, failed) ↦ let k : err e ≡ ok a = rw failed at h in cc
    | inr (r, done) ↦ rw done (let k : ok r.0 ≡ ok a = rw done at h in cc)
  ]
  attempt_on-ok f db (false ∷ fs) a h = elim (Result-cases (f db)) [
    | inl (e, failed) ↦ let k : err e ≡ ok a = rw failed at h in cc
    | inr (r, done) ↦ rw done (let k : ok r.0 ≡ ok a = rw done at h in cc)
  ]
  attempt_on-ok f db (true ∷ fs) a h = cc

  -- A write that succeeds has done what it does to the tables.
  pub write_done :
      (f : Db F → Result (A × Db F)) (w : World F) (a : A)
      → (write f w).0 ≡ ok a
      → f w.db ≡ ok (a, (write f w).1.db)
  unfolding write attempt
  write_done f w a h = attempt_on-ok f w.db w.faults a h

  pairs_eq :
      (a b : A) (db db' : Db F) (r : Result (A × Db F))
      → r ≡ ok (a, db)
      → r ≡ ok (b, db')
      → (b ≡ a) × (db' ≡ db)
  pairs_eq a b db db' r h k = (cc, cc)

  -- So for a write that cannot be refused.
  pub update_done :
      (h : Db F → A) (k : Db F → Db F) (w : World F) (a : A)
      → (write (λ db. ok (h db, k db)) w).0 ≡ ok a
      → (a ≡ h w.db) × ((write (λ db. ok (h db, k db)) w).1.db ≡ k w.db)
  update_done h k w a done =
      pairs_eq (h w.db) a (k w.db) _ _ refl (write_done (λ db. ok (h db, k db)) w a done)

  pub query_found : (f : Db F → A) (w : World F) (a : A) → (query f w).0 ≡ ok a → a ≡ f w.db
  unfolding query attempt
  query_found f w a h =
      (pairs_eq (f w.db) a w.db _ _ refl (attempt_on-ok (λ db. ok (f db, db)) w.db w.faults a h)).0

  close_done :
      (w w' : World F) (r : Result A) (a : A)
      → (close w r w').0 ≡ ok a
      → (r ≡ ok a) × ((close w r w').1.db ≡ w'.db)
  close_done w w' (err e) a h = cc
  close_done w w' (ok b) a h = elim (Faults-cases w'.faults) [
    | inl nothing_left ↦ rw nothing_left (rw nothing_left at h, refl)
    | inr (fault, fs, e) ↦ elim (Bool-cases fault) [
      | inl failed ↦ let k : err driver ≡ ok a = rw (e, failed) at h in cc
      | inr worked ↦ rw (e, worked) (rw (e, worked) at h, refl)
    ]
  ]

  -- A transaction that succeeds has done what its body does.
  pub transaction_done :
      (m : Tx F A) (w : World F) (a : A)
      → (transaction m w).0 ≡ ok a
      → ((m w).0 ≡ ok a) × ((transaction m w).1.db ≡ (m w).1.db)
  unfolding transaction
  transaction_done m w a h = close_done w (m w).1 (m w).0 a h

  found_ok :
      (e : Error) (o : Option A) (db db' : Db F) (a : A) → found e o db ≡ ok (a, db') → o ≡ some a
  found_ok e none db db' a h = cc
  found_ok e (some b) db db' a h = cc

  -- A row that `First` returns is the one that it looks for.
  pub first_found :
      (e : Error) (f : Db F → Option A) (w : World F) (a : A)
      → (first e f w).0 ≡ ok a
      → f w.db ≡ some a
  unfolding first attempt
  first_found e f w a h =
      found_ok e (f w.db) w.db _ a (attempt_on-ok (λ db. found e (f db) db) w.db w.faults a h)

module _ {F A B : Type 0} (Post : Result B × World F → Type 0) (f : A → Tx F B) where
  -- To prove something of a block, prove it where its first call fails and where it succeeds.
  pub continue_rule :
      (r : Result A) (w : World F)
      → ((e : Error) → r ≡ err e → Post (err e, w))
      → ((a : A) → r ≡ ok a → Post (f a w))
      → Post (continue r f w)
  continue_rule (ok a) w failed done = done a refl
  continue_rule (err e) w failed done = failed e refl

module _ {F X : Type 0} (g : Db F → X) where
  -- The function leaves what `g` reads of the tables alone.
  pub record Keeps {A : Type 0} (m : Tx F A) : Type 0 where
    pub kept : (w : World F) → g (m w).1.db ≡ g w.db

  pub Keeps-pure : {A : Type 0} (a : A) → Keeps (pure a)
  Keeps-pure a = record { kept = λ w. refl }

  pub Keeps-raise : {A : Type 0} (e : Error) → Keeps {A = A} (raise e)
  Keeps-raise e = record { kept = λ w. refl }

  finish_kept :
      {A : Type 0} (r : Result (A × Db F)) (db : Db F) (fs : List Bool)
      → ((a : A) (db' : Db F) → r ≡ ok (a, db') → g db' ≡ g db)
      → g (finish r (record { db = db; faults = fs })).1.db ≡ g db
  finish_kept (ok (a, db')) db fs k = k a db' refl
  finish_kept (err e) db fs k = refl

  attempt_kept :
      {A : Type 0} (f : Db F → Result (A × Db F)) (db : Db F) (fs : List Bool)
      → ((a : A) (db' : Db F) → f db ≡ ok (a, db') → g db' ≡ g db)
      → g (attempt_on f db fs).1.db ≡ g db
  attempt_kept f db [] k = finish_kept (f db) db [] k
  attempt_kept f db (false ∷ fs) k = finish_kept (f db) db fs k
  attempt_kept f db (true ∷ fs) k = refl

  pub Keeps-write :
      {A : Type 0} (f : Db F → Result (A × Db F))
      → ((db : Db F) (a : A) (db' : Db F) → f db ≡ ok (a, db') → g db' ≡ g db)
      → Keeps (write f)
  unfolding write attempt
  Keeps-write f k = record { kept = λ w. attempt_kept f w.db w.faults (k w.db) }

  same_db :
      {A : Type 0} (a b : A) (db db' : Db F) (r : Result (A × Db F))
      → r ≡ ok (a, db)
      → r ≡ ok (b, db')
      → g db' ≡ g db
  same_db a b db db' r h k = cc

  pub Keeps-query : {A : Type 0} (f : Db F → A) → Keeps (query f)
  unfolding query attempt
  Keeps-query f = record {
    kept = λ w.
        attempt_kept (λ db. ok (f db, db)) w.db w.faults
          (λ a db' h. same_db (f w.db) a w.db db' _ refl h);
  }

  found_kept :
      {A : Type 0} (e : Error) (o : Option A) (db : Db F) (a : A) (db' : Db F)
      → found e o db ≡ ok (a, db')
      → g db' ≡ g db
  found_kept e none db a db' h = cc
  found_kept e (some b) db a db' h = cc

  pub Keeps-first : {A : Type 0} (e : Error) (f : Db F → Option A) → Keeps (first e f)
  unfolding first attempt
  Keeps-first e f = record {
    kept = λ w.
        attempt_kept (λ db. found e (f db) db) w.db w.faults
          (λ a db' h. found_kept e (f w.db) w.db a db' h);
  }

  pub Keeps-if :
      {A : Type 0} (b : Bool) (m n : Tx F A) → Keeps m → Keeps n → Keeps (if b then m else n)
  Keeps-if true m n km kn = km
  Keeps-if false m n km kn = kn

  continue_kept :
      {A B : Type 0} (f : A → Tx F B)
      → ((a : A) → Keeps (f a))
      → (r : Result A) (w : World F) → g (continue r f w).1.db ≡ g w.db
  continue_kept f k (ok a) w = (k a).kept w
  continue_kept f k (err e) w = refl

  pub Keeps-bind :
      {A B : Type 0} (m : Tx F A) (f : A → Tx F B)
      → Keeps m
      → ((a : A) → Keeps (f a))
      → Keeps (m >>= f)
  Keeps-bind m f km kf = record { kept = λ w. continue_kept f kf (m w).0 (m w).1 ∙ km.kept w }

  close_kept :
      {A : Type 0} (w w' : World F) (r : Result A)
      → g w'.db ≡ g w.db
      → g (close w r w').1.db ≡ g w.db
  close_kept w w' (err e) h = refl
  close_kept w w' (ok a) h = elim (Faults-cases w'.faults) [
    | inl nothing_left ↦ rw nothing_left h
    | inr (b, fs, e) ↦ elim (Bool-cases b) [ inl bt ↦ rw (e, bt) refl | inr bf ↦ rw (e, bf) h ]
  ]

  pub Keeps-transaction : {A : Type 0} (m : Tx F A) → Keeps m → Keeps (transaction m)
  unfolding transaction
  Keeps-transaction m k = record { kept = λ w. close_kept w (m w).1 (m w).0 (k.kept w) }

not_refused :
    {F : Type 0} (refuse : Bool) (e : Error) (k : Db F) (a : Unit) (db' : Db F)
    → (let done : Result (Unit × Db F) = ok (tt, k) in if refuse then err e else done) ≡ ok (a, db')
    → (refuse ≡ false) × (db' ≡ k)
not_refused true e k a db' h = cc
not_refused false e k a db' h = (refl, cc)

module _ {F : Type 0} where
  -- A guarded write that succeeds was not refused.
  pub guarded_done :
      (refuse : Db F → Bool) (e : Error) (k : Db F → Db F) (w : World F) (a : Unit)
      → (write (λ db. if refuse db then err e else ok (tt, k db)) w).0 ≡ ok a
      → (refuse w.db ≡ false)
        × ((write (λ db. if refuse db then err e else ok (tt, k db)) w).1.db ≡ k w.db)
  guarded_done refuse e k w a h =
      not_refused (refuse w.db) e (k w.db) a _
        (write_done (λ db. if refuse db then err e else ok (tt, k db)) w a h)

module _ {F X : Type 0} (g : Db F → X) where
  -- A write that cannot be refused
  pub Keeps-update :
      {A : Type 0} (h : Db F → A) (k : Db F → Db F)
      → ((db : Db F) → g (k db) ≡ g db)
      → Keeps g (write (λ db. ok (h db, k db)))
  Keeps-update h k kept =
      Keeps-write g (λ db. ok (h db, k db))
        (λ db a db' e. same_db g a a (k db) db' (ok (a, k db)) refl (cc) ∙ kept db)

  guarded_kept :
      (refuse : Bool) (e : Error) (db k : Db F) (a : Unit) (db' : Db F)
      → g k ≡ g db
      → (let done : Result (Unit × Db F) = ok (tt, k) in if refuse then err e else done)
        ≡ ok (a, db')
      → g db' ≡ g db
  guarded_kept true e db k a db' kept h = cc
  guarded_kept false e db k a db' kept h = same_db g tt a k db' (ok (tt, k)) refl h ∙ kept

  -- A write that a unique index may refuse
  pub Keeps-guarded :
      (refuse : Db F → Bool) (e : Error) (k : Db F → Db F)
      → ((db : Db F) → g (k db) ≡ g db)
      → Keeps g (write (λ db. if refuse db then err e else ok (tt, k db)))
  Keeps-guarded refuse e k kept =
      Keeps-write g (λ db. if refuse db then err e else ok (tt, k db))
        (λ db a db' h. guarded_kept (refuse db) e db (k db) a db' (kept db) h)

pub ruleset keep_rules =
    (Keeps-pure, Keeps-raise, Keeps-query, Keeps-first, Keeps-if, Keeps-bind, Keeps-transaction)
