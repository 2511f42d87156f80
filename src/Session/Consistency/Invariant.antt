-- ===== src/Session/Consistency/Invariant.antt =====
-- The invariant of the session tables, and what a list of open sessions says.
use tao_core_go.Prelude.{
  ◌≤◌, Text, true, ◌&&◌, none, some, List, [], ◌∷◌, ◌≡◌, refl, ap, inl, inr, arith, ◌==◌,
  text_eq_instance, find, filter, count, length-filter, ltb, Option-cases, Bool-cases, length, ◌∙◌,
}
use tao_core_go.Prelude.Rows.{In, IsUnique, In-filter}
use tao_core_go.Models.{Delivery, TestSession, ItemResponse}
use tao_core_go.Store.{Db, Result, Error}
use tao_core_go.Store.Faults.{Outcome, driver_failed, refused, succeeded}
use tao_core_go.Session.Start.{belongs, is_open, allowed_attempts, latest}

module _ {F : Type 0} where
  pub record IsConsistent (db : Db F) : Type 0 where
    pub session_ids : IsUnique (λ (s : TestSession F). s.id) db.sessions
    pub response_ids : IsUnique (λ (r : ItemResponse F). r.id) db.responses
    pub one_open : (d u : Text) → count (λ s. belongs d u s && is_open s) db.sessions ≤ 1
    pub capped :
        (d u : Text) (delivery : Delivery)
        → find (λ (r : Delivery). r.id == d) db.deliveries ≡ some delivery
        → count (belongs d u) db.sessions ≤ allowed_attempts delivery.max_attempts

  pub In-latest : (xs : List (TestSession F)) (s : TestSession F) → latest xs ≡ some s → In s xs
  unfolding latest
  In-latest [] s h = cc
  In-latest (x ∷ xs) s h = elim (Option-cases (latest xs)) [
    | inl none_later ↦ inl (ground arith)
    | inr (t, later) ↦ elim (Bool-cases (ltb x.attempt t.attempt)) [
      | inl lt ↦ let e : t ≡ s = ground arith in inr (In-latest xs s (later ∙ ap some e))
      | inr ge ↦ inl (ground arith)
    ]
  ]

  latest-none : (xs : List (TestSession F)) → latest xs ≡ none → length xs ≡ 0
  unfolding latest
  latest-none [] h = refl
  latest-none (x ∷ xs) h = absurd (ground arith)

  -- Where no open session is found there is none.
  pub count_open_zero :
      (d u : Text) (xs : List (TestSession F))
      → latest (filter (λ s. belongs d u s && is_open s) xs) ≡ none
      → count (λ s. belongs d u s && is_open s) xs ≡ 0
  count_open_zero d u xs h = omega (
    arith,
    latest-none (filter (λ s. belongs d u s && is_open s) xs) h,
    length-filter (λ s. belongs d u s && is_open s) xs,
  )

  pub open_session_In :
      (d u : Text) (xs : List (TestSession F)) (s : TestSession F)
      → latest (filter (λ s. belongs d u s && is_open s) xs) ≡ some s
      → In s xs × (belongs d u s && is_open s ≡ true)
  open_session_In d u xs s h = In-filter (λ s. belongs d u s && is_open s) xs s (In-latest _ s h)

  -- A success that keeps the invariant is all that a call can do to it.
  pub Outcome-IsConsistent :
      {A : Type 0} (db : Db F) (Q : Error → Type 0) (P : A → Db F → Type 0)
      → IsConsistent db
      → ((a : A) (db' : Db F) → P a db' → IsConsistent db')
      → (r : Result A) (db' : Db F) → Outcome db Q P r db'
      → IsConsistent db'
  Outcome-IsConsistent db Q P c step r db' driver_failed = c
  Outcome-IsConsistent db Q P c step r db' (refused e q) = c
  Outcome-IsConsistent db Q P c step r db' (succeeded a _ p) = step a db' p
