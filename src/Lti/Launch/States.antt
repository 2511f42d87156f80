-- ===== src/Lti/Launch/States.antt =====
-- The pending states of launches, and what using one up does to them.
use tao_core_go.Prelude.{
  ℕ, ◌+◌, ◌≤◌, Text, Bool, none, List, [], ◌∷◌, ◌≡◌, refl, ◌&&◌, arith, find, count, update_where,
  ◌==◌, text_eq_instance,
}
use tao_core_go.Prelude.Rows.{IsUnique}
use tao_core_go.Models.{LtiOidcState}
use tao_core_go.Store.{Db}
use tao_core_go.Lti.Launch.{is_unset, is_pending, set_used}

abbrev pub unused : Text → LtiOidcState → Bool
unused state r = r.state == state && is_unset r.used_at

-- No launch can find the state any more.
abbrev pub Spent : {F : Type 0} → Text → Db F → Type 0
Spent state db = count (unused state) db.lti.states ≡ 0

-- The primary key of the states is unique.
abbrev pub HasUniqueStates : {F : Type 0} → Db F → Type 0
HasUniqueStates db = IsUnique (λ r. r.state) db.lti.states

-- Each row that is set used is one unused row less.
count-set_used :
    (now : ℕ) (state : Text) (rows : List LtiOidcState)
    → count (unused state) (update_where (is_pending now state) (set_used now) rows)
        + count (is_pending now state) rows
      ≡ count (unused state) rows
unfolding count update_where is_pending
count-set_used now state [] = refl
count-set_used now state (r ∷ rows) = ground (arith, count-set_used now state rows)

count-unused_le :
    (state : Text) (rows : List LtiOidcState)
    → count (unused state) rows ≤ count (λ r. r.state == state) rows
unfolding count
count-unused_le state [] = omega arith
count-unused_le state (r ∷ rows) = ground (arith, count-unused_le state rows)

-- Where the one row of a state was pending, none is unused afterwards.
pub set_used_spends :
    (now : ℕ) (state : Text) (rows : List LtiOidcState)
    → IsUnique (λ r. r.state) rows
    → count (is_pending now state) rows ≡ 1
    → count (unused state) (update_where (is_pending now state) (set_used now) rows) ≡ 0
set_used_spends now state rows unique one =
    omega (arith, count-set_used now state rows, count-unused_le state rows, unique state, one)

-- Where no row is pending, nothing is set used.
pub set_used_nothing :
    (now : ℕ) (state : Text) (rows : List LtiOidcState)
    → count (is_pending now state) rows ≡ 0
    → update_where (is_pending now state) (set_used now) rows ≡ rows
unfolding count update_where
set_used_nothing now state [] h = refl
set_used_nothing now state (r ∷ rows) h = ground (arith, set_used_nothing now state rows)

count-pending_le :
    (now : ℕ) (state : Text) (rows : List LtiOidcState)
    → count (is_pending now state) rows ≤ count (unused state) rows
unfolding count is_pending
count-pending_le now state [] = omega arith
count-pending_le now state (r ∷ rows) = ground (arith, count-pending_le now state rows)

-- At most one row of a state is pending.
pub count-pending_le_one :
    (now : ℕ) (state : Text) (rows : List LtiOidcState)
    → IsUnique (λ r. r.state) rows
    → count (is_pending now state) rows ≤ 1
count-pending_le_one now state rows unique =
    omega (arith, count-pending_le now state rows, count-unused_le state rows, unique state)

-- Setting states used changes no key, and uses no other state up.
pub count-state-set_used :
    (now : ℕ) (state other : Text) (rows : List LtiOidcState)
    → count (λ r. r.state == other) (update_where (is_pending now state) (set_used now) rows)
      ≡ count (λ r. r.state == other) rows
unfolding count update_where
count-state-set_used now state other [] = refl
count-state-set_used now state other (r ∷ rows) =
    ground (arith, count-state-set_used now state other rows)

pub count-unused-set_used :
    (now : ℕ) (state other : Text) (rows : List LtiOidcState)
    → count (unused other) (update_where (is_pending now state) (set_used now) rows)
      ≤ count (unused other) rows
unfolding count update_where
count-unused-set_used now state other [] = omega arith
count-unused-set_used now state other (r ∷ rows) =
    ground (arith, count-unused-set_used now state other rows)

-- A pending row is unused.
pub find-pending_spent :
    (now : ℕ) (state : Text) (rows : List LtiOidcState)
    → count (unused state) rows ≡ 0
    → find (is_pending now state) rows ≡ none
unfolding count find is_pending
find-pending_spent now state [] h = refl
find-pending_spent now state (r ∷ rows) h = ground (arith, find-pending_spent now state rows)
