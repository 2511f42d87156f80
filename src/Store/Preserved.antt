-- ===== src/Store/Preserved.antt =====
-- Conditions on the tables that a function preserves, whether it succeeds or fails.
use tao_core_go.Prelude.{Bool, true, false, List, [], ◌∷◌, ◌≡◌, refl, sym, Option, if◌then◌else◌}
use mathlib.Core.Path.{subst}
use tao_core_go.Store.{
  Error, Result, ok, err, Db, World, Tx, pure, raise, attempt, finish, attempt_on, first, write,
  continue, ◌>>=◌,
}
use tao_core_go.Store.Atomic.{IsReadOnly-first}

module _ {F : Type 0} (P : Db F → Type 0) where
  pub record Preserves {A : Type 0} (m : Tx F A) : Type 0 where
    pub preserved : (w : World F) → P w.db → P (m w).1.db

  pub Preserves-pure : {A : Type 0} (a : A) → Preserves (pure a)
  Preserves-pure a = record { preserved = λ w p. p }

  pub Preserves-raise : {A : Type 0} (e : Error) → Preserves {A = A} (raise e)
  Preserves-raise e = record { preserved = λ w p. p }

  pub Preserves-first : {A : Type 0} (e : Error) (f : Db F → Option A) → Preserves (first e f)
  Preserves-first e f = record {
    preserved = λ w p. subst P (sym ((IsReadOnly-first e f).same w)) p;
  }

  finish_preserved :
      {A : Type 0} (r : Result (A × Db F)) (db : Db F) (fs : List Bool)
      → P db
      → ((a : A) (db' : Db F) → r ≡ ok (a, db') → P db')
      → P (finish r (record { db = db; faults = fs })).1.db
  finish_preserved (ok (a, db')) db fs p k = k a db' refl
  finish_preserved (err e) db fs p k = p

  attempt_preserved :
      {A : Type 0} (f : Db F → Result (A × Db F)) (db : Db F) (fs : List Bool)
      → P db
      → ((a : A) (db' : Db F) → f db ≡ ok (a, db') → P db')
      → P (attempt_on f db fs).1.db
  attempt_preserved f db [] p k = finish_preserved (f db) db [] p k
  attempt_preserved f db (false ∷ fs) p k = finish_preserved (f db) db fs p k
  attempt_preserved f db (true ∷ fs) p k = p

  -- The same of one write, where the tables before it are known.
  write_keeps :
      {A : Type 0} (f : Db F → Result (A × Db F)) (w : World F)
      → P w.db
      → ((a : A) (db' : Db F) → f w.db ≡ ok (a, db') → P db')
      → P (write f w).1.db
  unfolding write attempt
  write_keeps f w p k = attempt_preserved f w.db w.faults p k

  pub Preserves-write :
      {A : Type 0} (f : Db F → Result (A × Db F))
      → ((db : Db F) (a : A) (db' : Db F) → P db → f db ≡ ok (a, db') → P db')
      → Preserves (write f)
  unfolding write attempt
  Preserves-write f k = record {
    preserved = λ w p. attempt_preserved f w.db w.faults p (λ a db' h. k w.db a db' p h);
  }

  pub Preserves-if :
      {A : Type 0} (b : Bool) (m n : Tx F A)
      → Preserves m
      → Preserves n
      → Preserves (if b then m else n)
  Preserves-if true m n km kn = km
  Preserves-if false m n km kn = kn

  continue_preserved :
      {A B : Type 0} (f : A → Tx F B)
      → ((a : A) → Preserves (f a))
      → (r : Result A) (w : World F) → P w.db
      → P (continue r f w).1.db
  continue_preserved f k (ok a) w p = (k a).preserved w p
  continue_preserved f k (err e) w p = p

  pub Preserves-bind :
      {A B : Type 0} (m : Tx F A) (f : A → Tx F B)
      → Preserves m
      → ((a : A) → Preserves (f a))
      → Preserves (m >>= f)
  Preserves-bind m f km kf = record {
    preserved = λ w p. continue_preserved f kf (m w).0 (m w).1 (km.preserved w p);
  }

  -- A write that cannot be refused
  pub Preserves-update :
      {A : Type 0} (h : Db F → A) (k : Db F → Db F)
      → ((db : Db F) → P db → P (k db))
      → Preserves (write (λ db. ok (h db, k db)))
  Preserves-update h k keep =
      Preserves-write (λ db. ok (h db, k db))
        (λ db a db' p e. let same : k db ≡ db' = cc in subst P same (keep db p))

  guarded_preserved :
      (refuse : Bool) (e : Error) (k : Db F) (a : Unit) (db' : Db F)
      → (refuse ≡ false → P k)
      → (let done : Result (Unit × Db F) = ok (tt, k) in if refuse then err e else done)
        ≡ ok (a, db')
      → P db'
  guarded_preserved true e k a db' p h = cc
  guarded_preserved false e k a db' p h = let same : k ≡ db' = cc in subst P same (p refl)

  -- One write that a unique index may refuse, where the tables before it are known
  pub guarded_keeps :
      (refuse : Db F → Bool) (e : Error) (k : Db F → Db F) (w : World F)
      → P w.db
      → (refuse w.db ≡ false → P (k w.db))
      → P (write (λ db. if refuse db then err e else ok (tt, k db)) w).1.db
  guarded_keeps refuse e k w p keep =
      write_keeps (λ db. if refuse db then err e else ok (tt, k db)) w p
        (λ a db' h. guarded_preserved (refuse w.db) e (k w.db) a db' keep h)

  -- A write that a unique index may refuse
  pub Preserves-guarded :
      (refuse : Db F → Bool) (e : Error) (k : Db F → Db F)
      → ((db : Db F) → P db → refuse db ≡ false → P (k db))
      → Preserves (write (λ db. if refuse db then err e else ok (tt, k db)))
  Preserves-guarded refuse e k keep =
      Preserves-write (λ db. if refuse db then err e else ok (tt, k db))
        (λ db a db' p h. guarded_preserved (refuse db) e (k db) a db' (keep db p) h)

pub ruleset preserve_rules =
    (Preserves-pure, Preserves-raise, Preserves-first, Preserves-if, Preserves-bind)
