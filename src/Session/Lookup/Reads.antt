-- ===== src/Session/Lookup/Reads.antt =====
-- What `GetSession` gives, for every plan of driver faults.
use tao_core_go.Prelude.{Text, none, some, ◌≡◌, refl, arith, find, Option-cases, inl, inr}
use tao_core_go.Store.{Db, World, Error, ok, err, quiet, query, write, session_not_found}
use tao_core_go.Store.Faults.{Outcome, Body}
use tao_core_go.Store.Atomic.{
  IsAtomic, IsAtomic-write, IsAtomic-read, IsAtomic-map, IsReadOnly-first, atomic-Outcome,
}
use tao_core_go.Session.Lookup.{
  Loaded, owned, find_owned, responses_of, load_responses, get_session,
}
use tao_core_go.Session.Lookup.Faults.{get_session-IsRobust}

module _ {F : Type 0} (sid uid : Text) where
  get_session-IsAtomic : IsAtomic {F = F} (get_session sid uid)
  unfolding get_session find_owned load_responses query write
  get_session-IsAtomic = IsAtomic-read _ _ (IsReadOnly-first _ _) (λ session.
      IsAtomic-map _ (λ rows. record { session = session; responses = rows })
        (IsAtomic-write (λ db. ok (responses_of session.id db, db))))

  -- Why no session is given, and what is given
  abbrev pub IsUnknown : Db F → Error → Type 0
  IsUnknown db e = (e ≡ session_not_found) × (find (owned sid uid) db.sessions ≡ none)

  abbrev pub IsRead : Db F → Loaded F → Db F → Type 0
  IsRead db loaded db' =
      (find (owned sid uid) db.sessions ≡ some loaded.session)
      × (loaded.responses ≡ responses_of loaded.session.id db)
      × (db' ≡ db)

  get_session-Ends :
      (db : Db F)
      → Body
          (IsUnknown db)
          (IsRead db)
          (get_session sid uid (quiet db)).0
          (get_session sid uid (quiet db)).1.db
  get_session-Ends db = elim (Option-cases (find (owned sid uid) db.sessions)) [
    | inl missing ↦
        let e : get_session sid uid (quiet db) ≡ (err session_not_found, quiet db) =
          unfold get_session find_owned load_responses in ground arith in
        rw e (refl, missing)
    | inr (s, found) ↦
        let e : get_session sid uid (quiet db)
            ≡ (ok (record { session = s; responses = responses_of s.id db }), quiet db) =
          unfold get_session find_owned load_responses in ground arith in
        rw e (found, refl, refl)
  ]

  pub get_session-Reads :
      (w : World F)
      → Outcome w.db
          (IsUnknown w.db)
          (IsRead w.db)
          (get_session sid uid w).0
          (get_session sid uid w).1.db
  get_session-Reads w =
      atomic-Outcome (get_session sid uid) _ _ (get_session-IsRobust sid uid) get_session-IsAtomic w
        (get_session-Ends w.db)
