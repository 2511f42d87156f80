-- ===== src/Session/Consistency/Starting.antt =====
-- `StartSession` keeps the invariant.
use mathlib.Core.Path.{subst}
use tao_core_go.Prelude.{
  ◌≤◌, ◌<◌, Text, Bool, true, false, ◌&&◌, none, some, List, [], ◌∷◌, ◌++◌, ◌≡◌, refl, sym, inl,
  inr, arith, ◌==◌, nat_eq, text_eq_instance, text_eq_iff, text_eq_refl, find, count, any,
  update_where, Bool-cases,
}
use tao_core_go.Prelude.Rows.{
  In, In-unique, count-update_where, count_append_one, count-zero_of_any,
}
use tao_core_go.Float.{Float64}
use tao_core_go.Models.{in_progress, status_eq_instance, Delivery, TestSession}
use tao_core_go.Store.{Db, World}
use tao_core_go.Text.{trim_space}
use tao_core_go.Session.{Env}
use tao_core_go.Session.Start.{belongs, is_open, allowed_attempts, same_session_key, start_session}
use tao_core_go.Session.Start.Outcome.{next_session, Granted, resumed, begun, created, open_session}
use tao_core_go.Session.Start.Laws.{start_session-Starts}
use tao_core_go.Session.Consistency.Invariant.{
  IsConsistent, count_open_zero, open_session_In, Outcome-IsConsistent,
}

module _ {F : Type 0} ⦃float : Float64 F⦄ (env : Env) (d u : Text) (db : Db F)
    (c : IsConsistent db) where
  -- A started session differs from its old row in its status and start alone.
  module _ (s s' : TestSession F) (found : open_session env d u db ≡ some s)
      (e : s' ≡ record s { status = in_progress; started_at = some env.now }) where
    same_row : (x : TestSession F) → In x db.sessions → (x.id == s.id) ≡ true → x ≡ s
    same_row x i h =
        In-unique (λ (y : TestSession F). y.id == s.id) db.sessions x s (c.session_ids s.id) i
          (open_session_In d u db.sessions s found).0 h (text_eq_refl s.id)

    begun_count :
        (q : TestSession F → Bool)
        → q (record s { status = in_progress; started_at = some env.now }) ≡ q s
        → count q (update_where (λ r. r.id == s.id) (λ _. s') db.sessions) ≡ count q db.sessions
    begun_count q same =
        count-update_where q (λ (r : TestSession F). r.id == s.id) (λ _. s') db.sessions
          (λ x i h. rw (e, same_row x i h) same)

    begun_open :
        (d' u' : Text)
        → (belongs d' u' (record s { status = in_progress; started_at = some env.now })
            && is_open (record s { status = in_progress; started_at = some env.now }))
          ≡ (belongs d' u' s && is_open s)
    unfolding belongs is_open
    begun_open d' u' = ground (arith, (open_session_In d u db.sessions s found).1)

    begun-IsConsistent :
        IsConsistent
          (record db { sessions = update_where (λ r. r.id == s.id) (λ _. s') db.sessions })
    unfolding belongs
    begun-IsConsistent = record {
      session_ids = λ i. rw (begun_count (λ x. x.id == i) refl) (c.session_ids i);
      response_ids = c.response_ids;
      one_open = λ d' u'.
          rw (begun_count (λ x. belongs d' u' x && is_open x) (begun_open d' u'))
            (c.one_open d' u');
      capped = λ d' u' delivery listed.
          rw (begun_count (belongs d' u') refl) (c.capped d' u' delivery listed);
    }

  -- A new attempt: no open session, room for one more, and a fresh key.
  module _ (delivery : Delivery)
      (listed : find (λ (r : Delivery). r.id == d) db.deliveries ≡ some delivery)
      (no_open : open_session env d u db ≡ none)
      (room : count (belongs d u) db.sessions < allowed_attempts delivery.max_attempts)
      (fresh : any (same_session_key (next_session env d u db)) db.sessions ≡ false) where
    fresh_id : count (λ s. s.id == env.new_id) db.sessions ≡ 0
    unfolding same_session_key
    fresh_id =
        count-zero_of_any (same_session_key (next_session env d u db)) (λ s. s.id == env.new_id)
          db.sessions (λ x h. ground arith) fresh

    created_id :
        (i : Text) → count (λ s. s.id == i) (db.sessions ++ next_session env d u db ∷ []) ≤ 1
    created_id i = elim (Bool-cases (env.new_id == i)) [
      | inl same ↦
          let e : env.new_id ≡ i = (text_eq_iff _ _).0 same in
          let unused : count (λ s. s.id == i) db.sessions ≡ 0 =
            subst (λ k. count (λ (s : TestSession F). s.id == k) db.sessions ≡ 0) e fresh_id in
          rw
            (
              count_append_one (λ (s : TestSession F). s.id == i) db.sessions
                  (next_session env d u db),
              same,
            )
            (omega arith)
      | inr other ↦
          rw
            (
              count_append_one (λ (s : TestSession F). s.id == i) db.sessions
                  (next_session env d u db),
              other,
            )
            (omega (arith, c.session_ids i))
    ]

    belongs_next :
        (d' u' : Text) → belongs d' u' (next_session env d u db) ≡ true → (d ≡ d') × (u ≡ u')
    unfolding belongs
    belongs_next d' u' h = ground (arith, text_eq_iff d d', text_eq_iff u u')

    created_open :
        (d' u' : Text)
        → count (λ s. belongs d' u' s && is_open s) (db.sessions ++ next_session env d u db ∷ [])
          ≤ 1
    created_open d' u' = elim (Bool-cases (belongs d' u' (next_session env d u db))) [
      | inl same ↦
          let (ed, eu) = belongs_next d' u' same in
          let unused : count (λ s. belongs d' u' s && is_open s) db.sessions ≡ 0 =
            rw (← ed, ← eu) (count_open_zero d u db.sessions no_open) in
          ground (
            arith,
            unused,
            count_append_one (λ s. belongs d' u' s && is_open s) db.sessions
                (next_session env d u db),
          )
      | inr other ↦ ground (
        arith,
        other,
        c.one_open d' u',
        count_append_one (λ s. belongs d' u' s && is_open s) db.sessions (next_session env d u db),
      )
    ]

    created_capped :
        (d' u' : Text) (delivery' : Delivery)
        → find (λ (r : Delivery). r.id == d') db.deliveries ≡ some delivery'
        → count (belongs d' u') (db.sessions ++ next_session env d u db ∷ [])
          ≤ allowed_attempts delivery'.max_attempts
    created_capped d' u' delivery' listed' =
        elim (Bool-cases (belongs d' u' (next_session env d u db))) [
          | inl same ↦
              let (ed, eu) = belongs_next d' u' same in
              let here : find (λ (r : Delivery). r.id == d') db.deliveries ≡ some delivery =
                rw (← ed) listed in
              let one_delivery : delivery ≡ delivery' = cc in
              let room' : count (belongs d' u') db.sessions
                  < allowed_attempts delivery'.max_attempts =
                rw (← ed, ← eu, ← one_delivery) room in
              rw (count_append_one (belongs d' u') db.sessions (next_session env d u db), same)
                (omega arith)
          | inr other ↦
              rw (count_append_one (belongs d' u') db.sessions (next_session env d u db), other)
                (omega (arith, c.capped d' u' delivery' listed'))
        ]

    created-IsConsistent :
        IsConsistent (record db { sessions = db.sessions ++ next_session env d u db ∷ [] })
    created-IsConsistent = record {
      session_ids = created_id;
      response_ids = c.response_ids;
      one_open = created_open;
      capped = created_capped;
    }

  Granted-IsConsistent :
      {s : TestSession F} {rows : List (TestSession F)}
      → Granted env d u db s rows
      → IsConsistent (record db { sessions = rows })
  Granted-IsConsistent (resumed s found started) = c
  Granted-IsConsistent (begun s s' found e) = begun-IsConsistent s s' found e
  Granted-IsConsistent (created delivery listed no_open room fresh) =
      created-IsConsistent delivery listed no_open room fresh

module _ {F : Type 0} where
  -- Whatever a start returns and whatever the driver does, the invariant is kept.
  pub start_session-IsConsistent :
      ⦃float : Float64 F⦄ (env : Env) (delivery_id user_id : Text) (w : World F)
      → IsConsistent w.db
      → IsConsistent (start_session env delivery_id user_id w).1.db
  start_session-IsConsistent env delivery_id user_id w c =
      Outcome-IsConsistent w.db _ _ c
        (λ s db' g.
          subst IsConsistent (sym g.updated) (
            Granted-IsConsistent env (trim_space delivery_id) (trim_space user_id) w.db c
              g.granted))
        _ _ (start_session-Starts env delivery_id user_id w)
