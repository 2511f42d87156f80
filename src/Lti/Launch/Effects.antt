-- ===== src/Lti/Launch/Effects.antt =====
-- What the calls of a launch do to the tables.
use tao_core_go.Prelude.{
  ℕ, Text, Option, some, List, ◌≡◌, ◌≢◌, ◌⊎◌, inl, inr, refl, ap, arith, eqb, count, update_where,
  text_eq_instance, Bool-cases,
}
use tao_core_go.Float.{Float64}
use tao_core_go.Models.{LtiOidcState, LtiLinkSession}
use tao_core_go.Store.{Db, World, Result, ok, err, Error, invalid_lti_state, first}
use tao_core_go.Store.Frame.{update_done, first_found, Keeps, Keeps-update}
use tao_core_go.Store.Atomic.{IsReadOnly-first, IsAtomic-write}
use tao_core_go.Session.{Env}
use tao_core_go.Session.Start.{start_session}
use tao_core_go.Session.Start.Frame.{start_session-keeps_lti}
use tao_core_go.Lti.{mask, masked}
use tao_core_go.Lti.Login.{with_states}
use tao_core_go.Lti.Launch.{is_pending, set_used, save_in, mark_used, save_link}
use tao_core_go.Lti.Launch.States.{
  Spent, HasUniqueStates, set_used_spends, set_used_nothing, count-pending_le_one,
}

pub masked_ok : {A : Type 0} (e : Error) (r : Result A) (a : A) → masked e r ≡ ok a → r ≡ ok a
masked_ok e (ok b) a h = h
masked_ok e (err e') a h = cc

masked_err :
    {A : Type 0} (e : Error) (r : Result A) (e' : Error)
    → masked e r ≡ err e'
    → (e'' : Error) × (r ≡ err e'')
masked_err e (ok b) e' h = cc
masked_err e (err e'') e' h = (e'', refl)

abbrev pub states_of : {F : Type 0} → Db F → List LtiOidcState
states_of db = db.lti.states

pub start_session-Keeps_states :
    {F : Type 0} ⦃float : Float64 F⦄ (env : Env) (d u : Text)
    → Keeps {F = F} states_of (start_session env d u)
start_session-Keeps_states env d u = record {
  kept = λ w. ap (λ l. l.states) (start_session-keeps_lti env d u w);
}

module _ {F : Type 0} where
  pub save_link-Keeps_states : (row : LtiLinkSession) → Keeps states_of (save_link {F = F} row)
  unfolding save_link
  save_link-Keeps_states row =
      Keeps-update states_of (λ db. tt)
        (λ db. record db {
          lti = record (db.lti) { link_sessions = save_in row db.lti.link_sessions };
        })
        (λ db. refl)

  -- The row that is returned is in the table and passes the test, and nothing is changed.
  pub masked_first :
      {A : Type 0} (e : Error) (f : Db F → Option A) (w : World F)
      → ((mask e (first e f) w).1.db ≡ w.db)
        × ((a : A) → (mask e (first e f) w).0 ≡ ok a → f w.db ≡ some a)
  masked_first e f w =
      ((IsReadOnly-first e f).same w, λ a h. first_found e f w a (masked_ok e (first e f w).0 a h))

  spend_rows : ℕ → Text → Db F → Db F
  spend_rows now state db =
      with_states (update_where (is_pending now state) (set_used now) db.lti.states) db

  used_or_same :
      (now : ℕ) (state : Text) (db : Db F)
      → HasUniqueStates db
      → ((count (is_pending now state) db.lti.states ≡ 1)
          × Spent state (spend_rows now state db)
          × ((spend_rows now state db).lti.states
              ≡ update_where (is_pending now state) (set_used now) db.lti.states))
        ⊎ ((count (is_pending now state) db.lti.states ≢ 1) × (spend_rows now state db ≡ db))
  unfolding spend_rows
  used_or_same now state db unique =
      elim (Bool-cases (eqb (count (is_pending now state) db.lti.states) 1)) [
        | inl one ↦
            let e : count (is_pending now state) db.lti.states ≡ 1 = ground arith in
            inl (e, set_used_spends now state db.lti.states unique e, refl)
        | inr other ↦
            let few = count-pending_le_one now state db.lti.states unique in
            let e : count (is_pending now state) db.lti.states ≡ 0 = ground arith in
            inr (
              omega arith,
              ap (λ rows. with_states rows db) (set_used_nothing now state db.lti.states e),
            )
      ]

  -- One row was set used and the state is used up, or nothing changed.
  pub mark_used-effect :
      (now : ℕ) (state : Text) (w : World F) (rows : ℕ)
      → HasUniqueStates w.db
      → (mark_used now state w).0 ≡ ok rows
      → ((rows ≡ 1)
          × Spent state (mark_used now state w).1.db
          × ((mark_used now state w).1.db.lti.states
              ≡ update_where (is_pending now state) (set_used now) w.db.lti.states))
        ⊎ ((rows ≢ 1) × ((mark_used now state w).1.db ≡ w.db))
  unfolding mark_used spend_rows
  mark_used-effect now state w rows unique h =
      let (counted, stored) =
        update_done (λ db. count (is_pending now state) db.lti.states) (spend_rows now state) w rows
          (masked_ok invalid_lti_state _ rows h) in
      rw (counted, stored) (used_or_same now state w.db unique)

  pub mark_used-undone :
      (now : ℕ) (state : Text) (w : World F) (e : Error)
      → (mark_used now state w).0 ≡ err e
      → (mark_used now state w).1.db ≡ w.db
  unfolding mark_used
  mark_used-undone now state w e h =
      let (e', failed) = masked_err invalid_lti_state _ e h in (IsAtomic-write _).undone w e' failed
