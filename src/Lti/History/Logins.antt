-- ===== src/Lti/History/Logins.antt =====
-- How many unused rows of a state a login leaves.
use tao_core_go.Prelude.{
  ℕ, ◌+◌, ◌≤◌, Text, Bool, false, not, ◌||◌, List, [], ◌∷◌, ◌++◌, ◌≡◌, inl, inr, sym, arith, count,
  any, filter, find, leb, ◌==◌, text_eq_instance, text_eq_iff, if◌then◌else◌, Bool-cases,
}
use mathlib.Core.Path.{subst}
use tao_core_go.Prelude.Rows.{IsUnique, count_append_one, count-zero_of_any}
use tao_core_go.Text.{trim_right, is_empty, trim_space}
use tao_core_go.Models.{LtiPlatform, LtiOidcState}
use tao_core_go.Store.{Db, World, duplicated_key, platform_not_found}
use tao_core_go.Store.Frame.{continue_rule}
use tao_core_go.Store.Preserved.{Preserves, Preserves-update, guarded_keeps}
use tao_core_go.Lti.{Lib}
use tao_core_go.Lti.Urls.{same_origin}
use tao_core_go.Lti.Login.{
  LoginEnv, is_slash, registered_as, new_state, with_states, create_state, delete_expired,
  is_too_long, remember, redirect, find_issuer, start_login, initiate_login,
}
use tao_core_go.Lti.Launch.States.{unused, HasUniqueStates}
use tao_core_go.Lti.Launch.Effects.{masked_first}

abbrev pub drawn_by : Text → LoginEnv → ℕ
drawn_by state env = if env.drawn_state == state then 1 else 0

count-filter_le :
    (p q : LtiOidcState → Bool) (rows : List LtiOidcState) → count p (filter q rows) ≤ count p rows
unfolding count filter
count-filter_le p q [] = omega arith
count-filter_le p q (r ∷ rows) = ground (arith, count-filter_le p q rows)

-- A new row is refused if its state is in the table.
append-IsUnique :
    (rows : List LtiOidcState) (row : LtiOidcState)
    → IsUnique (λ r. r.state) rows
    → any (λ r. r.state == row.state) rows ≡ false
    → IsUnique (λ r. r.state) (rows ++ row ∷ [])
append-IsUnique rows row unique new i = elim (Bool-cases (row.state == i)) [
  | inl same ↦ omega (
    arith,
    count_append_one (λ r. r.state == i) rows row,
    count-zero_of_any (λ r. r.state == row.state) (λ r. r.state == i) rows
        (λ r e. ground (
          arith,
          text_eq_iff r.state i,
          text_eq_iff row.state i,
          text_eq_iff r.state row.state,
          same,
          e,
        ))
        new,
    rw same at (count_append_one (λ r. r.state == i) rows row),
  )
  | inr other ↦ omega (arith, rw other at (count_append_one (λ r. r.state == i) rows row), unique i)
]

-- A new row is one more unused row of its own state at most.
append-unused :
    (state : Text) (rows : List LtiOidcState) (row : LtiOidcState)
    → count (unused state) (rows ++ row ∷ [])
      ≤ count (unused state) rows + (if row.state == state then 1 else 0)
append-unused state rows row = ground (arith, count_append_one (unused state) rows row)

-- The keys of the states are unique, and at most `n` rows of the state are unused.
pub record IsWithin {F : Type 0} (state : Text) (n : ℕ) (db : Db F) : Type 0 where
  pub unique : HasUniqueStates db
  pub few : count (unused state) db.lti.states ≤ n

module _ {F : Type 0} (state : Text) where
  pub IsWithin-le : (n m : ℕ) (db : Db F) → n ≤ m → IsWithin state n db → IsWithin state m db
  IsWithin-le n m db h k = record { unique = k.unique; few = omega (arith, k.few) }

  delete_expired-IsWithin : (n now : ℕ) → Preserves {F = F} (IsWithin state n) (delete_expired now)
  unfolding delete_expired
  delete_expired-IsWithin n now =
      Preserves-update (IsWithin state n) (λ db. tt)
        (λ db. with_states (filter (λ r. leb now r.expires_at) db.lti.states) db)
        (λ db k. record {
          unique = λ i. omega (
            arith,
            count-filter_le (λ r. r.state == i) (λ r. leb now r.expires_at) db.lti.states,
            k.unique i,
          );
          few = omega (
            arith,
            count-filter_le (unused state) (λ r. leb now r.expires_at) db.lti.states,
            k.few,
          );
        })

  create_state-IsWithin :
      (n : ℕ) (row : LtiOidcState) (w : World F)
      → IsWithin state n w.db
      → IsWithin state (n + (if row.state == state then 1 else 0)) (create_state row w).1.db
  unfolding create_state
  create_state-IsWithin n row w k =
      guarded_keeps (IsWithin state (n + (if row.state == state then 1 else 0)))
        (λ db. any (λ r. r.state == row.state) db.lti.states) duplicated_key
        (λ db. with_states (db.lti.states ++ row ∷ []) db) w (IsWithin-le n _ w.db (omega arith) k)
        (λ new. record {
          unique = append-IsUnique w.db.lti.states row k.unique new;
          few = omega (arith, append-unused state w.db.lti.states row, k.few);
        })

module _ {F : Type 0} (state : Text) (lib : Lib) (env : LoginEnv) where
  remember-IsWithin :
      (n : ℕ) (uri hint message_hint : Text) (platform : LtiPlatform) (w : World F)
      → IsWithin state n w.db
      → IsWithin state
          (n + drawn_by state env)
          (remember lib env uri hint message_hint platform w).1.db
  unfolding remember
  remember-IsWithin n uri hint message_hint platform w k =
      let row = new_state env platform uri message_hint in
      let made : IsWithin state (n + drawn_by state env) (create_state row w).1.db =
        unfold new_state in create_state-IsWithin state n row w k in
      continue_rule (λ x. IsWithin state (n + drawn_by state env) x.1.db) _ (create_state row w).0
        (create_state row w).1 (λ e failed. made)
        (λ done created.
          (delete_expired-IsWithin state (n + drawn_by state env) env.now).preserved _ made)

  redirect-IsWithin :
      (n : ℕ) (uri hint message_hint : Text) (platform : LtiPlatform) (w : World F)
      → IsWithin state n w.db
      → IsWithin state
          (n + drawn_by state env)
          (redirect lib env uri hint message_hint platform w).1.db
  unfolding redirect
  redirect-IsWithin n uri hint message_hint platform w k =
      elim (Bool-cases (
        is_empty (trim_space hint)
        || not (same_origin lib.net lib.fold uri platform.tool_launch_url))) [
          | inl refused ↦ rw refused (IsWithin-le state n _ w.db (omega arith) k)
          | inr allowed ↦ rw allowed (remember-IsWithin n uri hint message_hint platform w k)
        ]

  start_login-IsWithin :
      (n : ℕ) (issuer client_id uri hint message_hint : Text) (w : World F)
      → IsWithin state n w.db
      → IsWithin state
          (n + drawn_by state env)
          (start_login lib env issuer client_id uri hint message_hint w).1.db
  unfolding start_login find_issuer
  start_login-IsWithin n issuer client_id uri hint message_hint w k =
      let (kept, row) =
        masked_first platform_not_found
          (λ db. find (registered_as (trim_right is_slash issuer) client_id) db.lti.platforms) w in
      let k' = subst (IsWithin state n) (sym kept) k in
      continue_rule (λ x. IsWithin state (n + drawn_by state env) x.1.db)
        (redirect lib env uri hint message_hint) (find_issuer issuer client_id w).0
        (find_issuer issuer client_id w).1
        (λ e failed. IsWithin-le state n (n + drawn_by state env) _ (omega arith) k')
        (λ platform got. redirect-IsWithin n uri hint message_hint platform _ k')

  pub initiate_login-IsWithin :
      (n : ℕ) (issuer client_id uri hint message_hint : Text) (w : World F)
      → IsWithin state n w.db
      → IsWithin state
          (n + drawn_by state env)
          (initiate_login lib env issuer client_id uri hint message_hint w).1.db
  unfolding initiate_login
  initiate_login-IsWithin n issuer client_id uri hint message_hint w k =
      elim (Bool-cases (is_too_long issuer client_id uri hint message_hint)) [
        | inl long ↦ rw long (IsWithin-le state n (n + drawn_by state env) w.db (omega arith) k)
        | inr short ↦ rw short (start_login-IsWithin n issuer client_id uri hint message_hint w k)
      ]
