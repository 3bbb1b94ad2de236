-- ===== src/Netconf/Sessions/Expiry.antt =====
-- The sessions that a clean-up or a shutdown of pkg/netconf/session.go closes.
use text.Mathlib.Text.{◌==◌ as str_eq}
use text.Mathlib.TextEquality.{eq_iff}
use arca_router.Prelude.{
  ℕ, ◌-◌, ◌<◌, ◌≤◌, ◌≢◌, ◌⊎◌, Bool, true, false, ◌||◌, List, [], ◌∷◌, none, some, String, ◌≡◌, refl,
  sym, ◌∙◌, arith, if◌then◌else◌, Option-cases, inl, inr,
}
use arca_router.Datastore.Table.{select, HasUniqueKeys, select-delete_if, delete_if-HasUniqueKeys}
use arca_router.Datastore.Schema.{LockRow, Database}
use arca_router.Datastore.Locks.{lock_of}
use arca_router.Datastore.WellFormed.{WellFormed}
use arca_router.Netconf.Sessions.{
  Session, SessionManager, State, session_key, get, forget, forget_all, has_expired,
  expired_sessions, close, close_each, close_all, cleanup_expired_sessions,
}
use arca_router.Netconf.Sessions.Covers.{Covers}
use arca_router.Netconf.Sessions.Releases.{Released, IsSorter, close-Released}
use arca_router.Netconf.Sessions.Tracked.{Consistent, live-Covers}

-- Whether a session of that name is in the list.
unfoldable pub is_named : String → List Session → Bool
is_named id [] = false
is_named id (s ∷ ss) = str_eq s.id id || is_named id ss

-- What the manager still has after the sessions of a list were deleted.
pub select-forget_all :
    (id : String) (ss : List Session) (sm : SessionManager)
    → HasUniqueKeys session_key sm.sessions
    → (HasUniqueKeys session_key (forget_all ss sm).sessions)
      × (get id (forget_all ss sm) ≡ (if is_named id ss then none else get id sm))
unfolding forget_all is_named
select-forget_all id [] sm u = (u, refl)
select-forget_all id (s ∷ ss) sm u =
    let u' = delete_if-HasUniqueKeys session_key s.id (λ _. true) sm.sessions u in
    let (v, rest) = select-forget_all id ss (forget s sm) u' in
    let law = select-delete_if session_key s.id id (λ _. true) sm.sessions u in
    (v, ground (arith, rest, law))

-- A session of the map is taken exactly where it has expired.
pub is_named-expired_sessions :
    (now : ℕ) (id : String) (ss : List Session)
    → HasUniqueKeys session_key ss
    → is_named id (expired_sessions now ss)
      ≡ elim (select session_key id ss) [ none ↦ false | some s ↦ has_expired now s ]
unfolding expired_sessions is_named select
is_named-expired_sessions now id [] u = refl
is_named-expired_sessions now id (s ∷ ss) u =
    ground (arith, is_named-expired_sessions now id ss u.1, eq_iff s.id id, u.0)

select-is_named :
    (id : String) (ss : List Session) (s : Session)
    → select session_key id ss ≡ some s
    → is_named id ss ≡ true
unfolding select is_named
select-is_named id [] s h = cc
select-is_named id (q ∷ ss) s h = ground (arith, select-is_named id ss s)

-- Every session of the list is in the map.
abbrev pub AllLive : List Session → List Session → Type 0
AllLive sessions [] = Unit {0}
AllLive sessions (s ∷ ss) = (select session_key s.id sessions ≡ some s) × AllLive sessions ss

pub expired_sessions-AllLive :
    (now : ℕ) (sessions ss : List Session)
    → AllLive sessions ss
    → AllLive sessions (expired_sessions now ss)
unfolding expired_sessions
expired_sessions-AllLive now sessions [] h = tt
expired_sessions-AllLive now sessions (s ∷ ss) h =
    ground (arith, h.0, expired_sessions-AllLive now sessions ss h.1)

more-AllLive :
    (s : Session) (sessions ss : List Session)
    → select session_key s.id sessions ≡ none
    → AllLive sessions ss
    → AllLive (s ∷ sessions) ss
unfolding select
more-AllLive s sessions [] fresh h = tt
more-AllLive s sessions (q ∷ ss) fresh h =
    (ground (arith, h.0, fresh, eq_iff s.id q.id), more-AllLive s sessions ss fresh h.1)

pub sessions-AllLive : (ss : List Session) → HasUniqueKeys session_key ss → AllLive ss ss
unfolding select
sessions-AllLive [] u = tt
sessions-AllLive (s ∷ ss) u =
    (ground (arith, eq_iff s.id s.id), more-AllLive s ss ss u.0 (sessions-AllLive ss u.1))

abbrev AllCover : List Session → Database → Type 0
AllCover [] db = Unit {0}
AllCover (s ∷ ss) db = Covers s db × AllCover ss db

AllLive-AllCover :
    (sessions ss : List Session) (db : Database)
    → Consistent sessions db
    → AllLive sessions ss
    → AllCover ss db
AllLive-AllCover sessions [] db k h = tt
AllLive-AllCover sessions (s ∷ ss) db k h =
    (live-Covers sessions db k s h.0, AllLive-AllCover sessions ss db k h.1)

Released-AllCover :
    (id : String) (ss : List Session) (db db' : Database)
    → Released id db db'
    → AllCover ss db
    → AllCover ss db'
Released-AllCover id [] db db' h c = tt
Released-AllCover id (s ∷ ss) db db' h c =
    (λ t row f. c.0 t row (h.left t row f).0, Released-AllCover id ss db db' h c.1)

-- After the sessions of a list were closed, nothing is locked in their names.
module _ (sort : List String → List String) (sorts : IsSorter sort) (now : ℕ) where
  pub close_each-Released :
      (ss : List Session) (db : Database)
      → WellFormed db
      → AllCover ss db
      → let db' = close_each sort now ss db in
        (WellFormed db')
        × ((t : String) (row : LockRow)
            → lock_of db' t ≡ some row
            → (lock_of db t ≡ some row) × (is_named row.session_id ss ≡ false))
  unfolding close_each is_named
  close_each-Released [] db v c = (v, λ t row f. (f, refl))
  close_each-Released (s ∷ ss) db v c =
      let h = close-Released sort now s db sorts v c.0 in
      let db1 = close sort now s db in
      let (v', rest) =
        close_each-Released ss db1 h.tables (Released-AllCover s.id ss db db1 h c.1) in
      (
        v',
        λ t row f.
            let (mid, later) = rest t row f in
            let (old, first) = h.left t row mid in
            (old, ground (arith, later, first, eq_iff s.id row.session_id)),
      )

  module _ (st : State) (k : Consistent st.manager.sessions st.database) where
    expired_released :
        let db' = (cleanup_expired_sessions sort now st).database in
        (WellFormed db')
        × ((t : String) (row : LockRow)
            → lock_of db' t ≡ some row
            → (lock_of st.database t ≡ some row)
              × (is_named row.session_id (expired_sessions now st.manager.sessions) ≡ false))
    unfolding cleanup_expired_sessions
    expired_released =
        let sessions = st.manager.sessions in
        let ss = expired_sessions now sessions in
        close_each-Released ss st.database k.tables (
          AllLive-AllCover sessions ss st.database k
            (expired_sessions-AllLive now sessions sessions (sessions-AllLive sessions k.unique)))

    found-cleanup_expired_sessions :
        (id : String)
        → get id (cleanup_expired_sessions sort now st).manager ≡ elim (get id st.manager) [
          | none ↦ none
          | some s ↦ if has_expired now s then none else some s
        ]
    unfolding cleanup_expired_sessions
    found-cleanup_expired_sessions id =
        let ss = expired_sessions now st.manager.sessions in
        let (u, law) = select-forget_all id ss st.manager k.unique in
        let named = is_named-expired_sessions now id st.manager.sessions k.unique in
        ground (arith, law, named)

    unlocked-cleanup_expired_sessions :
        (id t : String) (s : Session) (row : LockRow)
        → get id st.manager ≡ some s
        → has_expired now s ≡ true
        → lock_of (cleanup_expired_sessions sort now st).database t ≡ some row
        → row.session_id ≢ id
    unlocked-cleanup_expired_sessions id t s row found expired f same =
        let (old, unnamed) = expired_released.1 t row f in
        let named = is_named-expired_sessions now id st.manager.sessions k.unique in
        absurd (ground (arith, named, found, expired, unnamed, same))

    -- From a consistent state, with a sort that keeps the names of a list: the clean-up takes a session
    -- from the map that has been there for longer than its absolute timeout or idle for longer than
    -- its idle timeout, and leaves nothing locked in its name. It keeps a session that has been
    -- neither.
    pub get-cleanup_expired_sessions :
        (id : String) (s : Session)
        → get id st.manager ≡ some s
        → let st' = cleanup_expired_sessions sort now st in
          ((s.absolute_timeout < now - s.created_at) ⊎ (s.idle_timeout < now - s.last_used)
            → (get id st'.manager ≡ none)
              × ((t : String) (row : LockRow)
                  → lock_of st'.database t ≡ some row
                  → row.session_id ≢ id))
          × (now - s.created_at ≤ s.absolute_timeout
              → now - s.last_used ≤ s.idle_timeout
              → get id st'.manager ≡ some s)
    unfolding has_expired
    get-cleanup_expired_sessions id s found =
        let law = found-cleanup_expired_sessions id in
        (
          λ too_long.
              let expired : has_expired now s ≡ true = ground (arith, too_long) in
              (
                ground (arith, law, found, expired),
                λ t row. unlocked-cleanup_expired_sessions id t s row found expired,
              ),
          λ young busy. ground (arith, law, found, young, busy),
        )

    pub cleanup_expired_sessions-Consistent :
        let st' = cleanup_expired_sessions sort now st in
        Consistent st'.manager.sessions st'.database
    unfolding cleanup_expired_sessions
    cleanup_expired_sessions-Consistent =
        let ss = expired_sessions now st.manager.sessions in
        record {
          unique = (select-forget_all "" ss st.manager k.unique).0;
          tables = expired_released.0;
          tracked = λ t row f.
              let (old, unnamed) = expired_released.1 t row f in
              let (valid, (s, found, has)) = k.tracked t row old in
              let (u, law) = select-forget_all row.session_id ss st.manager k.unique in
              (valid, (s, law ∙ ground (arith, unnamed, found), has));
        }

    -- After `CloseAll` nothing is locked.
    pub lock_of-close_all : (t : String) → lock_of (close_all sort now st).database t ≡ none
    unfolding close_all is_named select
    lock_of-close_all t =
        let sessions = st.manager.sessions in
        let db' = (close_all sort now st).database in
        let (v, left) =
          close_each-Released sessions st.database k.tables (
            AllLive-AllCover sessions sessions st.database k
              (sessions-AllLive sessions k.unique)) in
        elim (Option-cases (lock_of db' t)) [
          | inl e ↦ e
          | inr (row, e) ↦
              let (old, unnamed) = left t row e in
              let (valid, (s, found, has)) = k.tracked t row old in
              absurd (ground (arith, unnamed, select-is_named row.session_id sessions s found))
        ]

    pub close_all-Consistent :
        let st' = close_all sort now st in Consistent st'.manager.sessions st'.database
    unfolding close_all
    close_all-Consistent =
        let sessions = st.manager.sessions in
        let (v, left) =
          close_each-Released sessions st.database k.tables (
            AllLive-AllCover sessions sessions st.database k
              (sessions-AllLive sessions k.unique)) in
        record {
          unique = tt;
          tables = v;
          tracked = λ t row f.
              let none_there : none ≡ some row = sym (lock_of-close_all t) ∙ f in absurd cc;
        }
