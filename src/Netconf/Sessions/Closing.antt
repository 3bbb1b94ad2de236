-- ===== src/Netconf/Sessions/Closing.antt =====
-- What the end of a session of pkg/netconf/session.go does to the locks.
use text.Mathlib.TextEquality.{eq_iff}
use arca_router.Prelude.{
  ℕ, true, false, List, [], ◌∷◌, none, some, String, ◌≡◌, ◌≢◌, refl, sym, ap, ◌∙◌, arith, subst,
  Result-cases, Option-intro, inl, inr,
}
use arca_router.Datastore.Table.{select-delete_if, key-select}
use arca_router.Datastore.Schema.{LockRow, Database, with_tx}
use arca_router.Datastore.Locks.{lock_of, is_expired, release_lock}
use arca_router.Datastore.Locks.Unlocks.{release_lock-others}
use arca_router.Datastore.WellFormed.{WellFormed, Keeps}
use arca_router.Datastore.Invariant.Locks.{release_lock-WellFormed}
use arca_router.Netconf.Sessions.{
  Session, State, session_key, get, release_all, get_locks, close_session,
}
use arca_router.Netconf.Sessions.Releases.{IsSorter, marked_id, close-Released}
use arca_router.Netconf.Sessions.Tracked.{Consistent, live-Covers}

module _ (now : ℕ) (t : String) (row : LockRow) (valid : is_expired now row ≡ false) where
  release_one-others :
      (target id : String) (db : Database)
      → WellFormed db
      → lock_of db t ≡ some row
      → row.session_id ≢ id
      → let db' = (with_tx db (release_lock now target id db)).0 in
        (WellFormed db') × (lock_of db' t ≡ some row)
  release_one-others target id db v f other = elim (Result-cases (release_lock now target id db)) [
    | inl (failure, e) ↦ rw e (v, f)
    | inr ((u, db'), e) ↦ rw e (
      subst Keeps e (release_lock-WellFormed db v now target id),
      release_lock-others now target id db t row v.locks e f valid other,
    )
  ]

  release_all-others :
      (targets : List String) (s : Session) (db : Database)
      → WellFormed db
      → lock_of db t ≡ some row
      → row.session_id ≢ s.id
      → lock_of (release_all now targets s db).1 t ≡ some row
  unfolding release_all
  release_all-others [] s db v f other = f
  release_all-others (target ∷ targets) s db v f other =
      let outcome = with_tx db (release_lock now target s.id db) in
      let (v', f') = release_one-others target s.id db v f other in
      release_all-others targets _ outcome.0 v' f' (λ e. other (e ∙ marked_id target s outcome.1))

-- What is left of the sessions and of the locks.
pub record Closed (now : ℕ) (id : String) (st st' : State) : Type 0 where
  pub gone : get id st'.manager ≡ none
  pub unlocked :
      (t : String) (row : LockRow) → lock_of st'.database t ≡ some row → row.session_id ≢ id
  pub kept :
      (t : String) (row : LockRow)
      → lock_of st.database t ≡ some row
      → is_expired now row ≡ false
      → row.session_id ≢ id
      → lock_of st'.database t ≡ some row
  pub unchanged : (j : String) → j ≢ id → get j st'.manager ≡ get j st.manager

-- The end of a session: the manager has it no more, no lock is left in its name, every lock that
-- another session holds stays, and so do the other sessions.
pub close_session-Closed :
    (sort : List String → List String) (now : ℕ) (id : String) (st : State)
    → IsSorter sort
    → Consistent st.manager.sessions st.database
    → Closed now id st (close_session sort now id st)
unfolding close_session
close_session-Closed sort now id st sorts k =
    Option-intro (Closed now id st) (get id st.manager) st _
      (λ e. record {
        gone = e;
        unlocked = λ t row f mine.
            let (valid, (s, found, has)) = k.tracked t row f in
            let lost : none ≡ some s = sym e ∙ (ap (λ x. get x st.manager) (sym mine) ∙ found) in
            absurd cc;
        kept = λ t row f valid other. f;
        unchanged = λ j other. refl;
      })
      (λ s e.
        let same : s.id ≡ id = key-select session_key id st.manager.sessions s e in
        let live : get s.id st.manager ≡ some s = ap (λ x. get x st.manager) same ∙ e in
        let cover = live-Covers st.manager.sessions st.database k s live in
        let h = close-Released sort now s st.database sorts k.tables cover in
        let law = λ (j : String).
          select-delete_if session_key s.id j (λ _. true) st.manager.sessions k.unique in
        record {
          gone = law id ∙ ground (arith, e, same, eq_iff s.id id);
          unlocked = λ t row f mine. (h.left t row f).1 (mine ∙ sym same);
          kept = λ t row f valid other.
              release_all-others now t row valid (get_locks sort s) s st.database k.tables f
                (λ e'. other (e' ∙ same));
          unchanged = λ j other. law j ∙ ground (arith, same, other, eq_iff s.id j);
        })
