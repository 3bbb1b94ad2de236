-- ===== src/Netconf/Sessions/Index/Runs.antt =====
-- The session manager of pkg/netconf/session.go over any run of its calls.
use text.Mathlib.TextEquality.{eq_iff}
use arca_router.Prelude.{
  ℕ, true, List, [], ◌∷◌, Option, none, some, String, ◌≡◌, refl, sym, ap, subst, ◌∙◌, arith,
  Option-intro,
}
use arca_router.Datastore.Table.{select, delete, HasUniqueKeys, select-delete_if, key-select}
use arca_router.Netconf.Sessions.{
  Session, SessionManager, SshConfig, State, session_key, get, get_by_numeric_id, index_get,
  index_delete, create, next_session_id, update_last_used, forget, forget_all, expired_sessions,
  close_session, close_session_by_numeric_id, close_all, cleanup_expired_sessions,
}
use arca_router.Netconf.Sessions.Expiry.{AllLive, expired_sessions-AllLive, sessions-AllLive}
use arca_router.Netconf.Sessions.Index.{Indexed, forget-Indexed, added-Indexed, touched-Indexed}

still-AllLive :
    (s : Session) (sessions ss : List Session)
    → HasUniqueKeys session_key sessions
    → select session_key s.id ss ≡ none
    → AllLive sessions ss
    → AllLive (delete session_key s.id sessions) ss
unfolding select
still-AllLive s sessions [] u other h = tt
still-AllLive s sessions (q ∷ ss) u other h =
    let law = select-delete_if session_key s.id q.id (λ _. true) sessions u in
    (
      law ∙ ground (arith, h.0, other, eq_iff q.id s.id, eq_iff s.id q.id),
      still-AllLive s sessions ss u (ground (arith, other)) h.1,
    )

forget_all-Indexed :
    (ss : List Session) (sm : SessionManager)
    → Indexed sm
    → AllLive sm.sessions ss
    → HasUniqueKeys session_key ss
    → Indexed (forget_all ss sm)
unfolding forget_all
forget_all-Indexed [] sm k h u = k
forget_all-Indexed (s ∷ ss) sm k h u =
    forget_all-Indexed ss (forget s sm) (forget-Indexed sm s k h.0)
      (still-AllLive s sm.sessions ss k.unique u.0 h.1) u.1

expired_sessions-none :
    (now : ℕ) (id : String) (ss : List Session)
    → select session_key id ss ≡ none
    → select session_key id (expired_sessions now ss) ≡ none
unfolding select expired_sessions
expired_sessions-none now id [] h = refl
expired_sessions-none now id (s ∷ ss) h = ground (arith, h, expired_sessions-none now id ss)

expired_sessions-HasUniqueKeys :
    (now : ℕ) (ss : List Session)
    → HasUniqueKeys session_key ss
    → HasUniqueKeys session_key (expired_sessions now ss)
unfolding expired_sessions
expired_sessions-HasUniqueKeys now [] u = tt
expired_sessions-HasUniqueKeys now (s ∷ ss) u =
    ground (arith, expired_sessions-HasUniqueKeys now ss u.1, expired_sessions-none now s.id ss u.0)

found_by_number :
    (n : ℕ) (sm : SessionManager)
    → Indexed sm
    → (s : Session) → get_by_numeric_id n sm ≡ some s
    → (get s.id sm ≡ some s) × (s.numeric_id ≡ n)
unfolding get_by_numeric_id
found_by_number n sm k =
    Option-intro (λ o. (s : Session) → o ≡ some s → (get s.id sm ≡ some s) × (s.numeric_id ≡ n))
      (index_get n sm.numeric_id_index) none (λ id. get id sm) (λ _ s e. cc)
      (λ id at s e.
        let (q, found, number) = k.leads n id at in
        let same : some q ≡ some s = sym found ∙ e in
        (ap (λ x. get x sm) (key-select session_key id sm.sessions s e) ∙ e, cc (same, number)))

reconfigured :
    (sm : SessionManager) (config : SshConfig)
    → Indexed sm
    → Indexed (record sm { config = config })
reconfigured sm config k = record { unique = k.unique; leads = k.leads; listed = k.listed }

-- The exported methods that change the manager.
pub data ManagerCall : Type 0 where
  -- The UUID, the name and the role of a new session.
  creates : String → String → String → ManagerCall
  uses closes : String → ManagerCall
  kills : ℕ → ManagerCall
  cleans closes_all : ManagerCall

module _ (sort : List String → List String) where
  abbrev pub killed : State → Option State → State
  killed st none = st
  killed st (some st') = st'

  abbrev pub created : State → Session × ℕ × SessionManager → State
  created st (session, counter, sm) = record st { manager = sm; counter = counter }

  unfoldable pub call : State → ℕ × ManagerCall → State
  call st (now, creates uuid username role) =
      created st (create now uuid username role st.counter st.manager)
  call st (now, uses id) = record st { manager = update_last_used now id st.manager }
  call st (now, closes id) = close_session sort now id st
  call st (now, kills n) = killed st (close_session_by_numeric_id sort now n st)
  call st (now, cleans) = cleanup_expired_sessions sort now st
  call st (now, closes_all) = close_all sort now st

  unfoldable pub run : State → List (ℕ × ManagerCall) → State
  run st [] = st
  run st (c ∷ cs) = run (call st c) cs

  -- A new session gets a UUID and a number that no session of the manager has.
  abbrev pub IsFresh : State → ℕ × ManagerCall → Type 0
  IsFresh st (now, creates uuid username role) =
      (get uuid st.manager ≡ none)
      × (index_get (next_session_id st.counter) st.manager.numeric_id_index ≡ none)
  IsFresh st (now, _) = Unit {0}

  abbrev pub AllFresh : State → List (ℕ × ManagerCall) → Type 0
  AllFresh st [] = Unit {0}
  AllFresh st (c ∷ cs) = IsFresh st c × AllFresh (call st c) cs

  close_session-Indexed :
      (now : ℕ) (id : String) (st : State)
      → Indexed st.manager
      → Indexed (close_session sort now id st).manager
  unfolding close_session
  close_session-Indexed now id st k =
      Option-intro (λ (x : State). Indexed x.manager) (get id st.manager) st _ (λ _. k)
        λ s e.
          let same : s.id ≡ id = key-select session_key id st.manager.sessions s e in
          forget-Indexed st.manager s k (ap (λ x. get x st.manager) same ∙ e)

  kill-Indexed :
      (now n : ℕ) (st : State)
      → Indexed st.manager
      → Indexed (killed st (close_session_by_numeric_id sort now n st)).manager
  unfolding close_session_by_numeric_id
  kill-Indexed now n st k =
      Option-intro (λ (o : Option State). Indexed (killed st o).manager)
        (get_by_numeric_id n st.manager) none _ (λ _. k)
        (λ s e.
          let (live, number) = found_by_number n st.manager k s e in
          subst
            (λ m. Indexed (record st.manager {
              sessions = delete session_key s.id st.manager.sessions;
              numeric_id_index = index_delete m st.manager.numeric_id_index;
            }))
            number (forget-Indexed st.manager s k live))

  call-Indexed :
      (st : State) (c : ℕ × ManagerCall)
      → Indexed st.manager
      → IsFresh st c
      → Indexed (call st c).manager
  unfolding call create cleanup_expired_sessions close_all index_get select
  call-Indexed st (now, creates uuid username role) k fresh =
      added-Indexed _ _ (reconfigured st.manager _ k) fresh.0 fresh.1
  call-Indexed st (now, uses id) k fresh = touched-Indexed st.manager now id k
  call-Indexed st (now, closes id) k fresh = close_session-Indexed now id st k
  call-Indexed st (now, kills n) k fresh = kill-Indexed now n st k
  call-Indexed st (now, cleans) k fresh =
      let sessions = st.manager.sessions in
      forget_all-Indexed (expired_sessions now sessions) st.manager k
        (expired_sessions-AllLive now sessions sessions (sessions-AllLive sessions k.unique))
        (expired_sessions-HasUniqueKeys now sessions k.unique)
  call-Indexed st (now, closes_all) k fresh = record {
    unique = tt;
    leads = λ n id f. cc;
    listed = λ id s f. cc;
  }

  -- Whatever calls the session manager gets, with UUIDs and numbers that are not in use when they are
  -- drawn, its two maps name the same sessions: a number that is in the index belongs to a session of
  -- the map, and every session of the map is in the index under its number.
  pub run-Indexed :
      (st : State) (cs : List (ℕ × ManagerCall))
      → Indexed st.manager
      → AllFresh st cs
      → Indexed (run st cs).manager
  unfolding run
  run-Indexed st [] k fresh = k
  run-Indexed st (c ∷ cs) k fresh = run-Indexed (call st c) cs (call-Indexed st c k fresh.0) fresh.1
