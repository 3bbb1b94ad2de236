-- ===== src/Netconf/Handlers/Steps/Tracking.antt =====
-- The locks of the datastore and the sessions of the NETCONF server, over any run.
use arca_router.Prelude.{Result-cases, ℕ, List, [], ◌∷◌, Option, String, subst, inl, inr}
use arca_router.Datastore.Schema.{with_tx}
use arca_router.Datastore.Locks.{perform_lock_cleanup}
use arca_router.Datastore.Locks.Unlocks.{perform_lock_cleanup-lock_of}
use arca_router.Datastore.WellFormed.{Keeps}
use arca_router.Datastore.Invariant.Locks.{perform_lock_cleanup-WellFormed}
use arca_router.Netconf.Sessions.{State, create}
use arca_router.Netconf.Sessions.Releases.{IsSorter}
use arca_router.Netconf.Sessions.Tracked.{Consistent, created-Consistent}
use arca_router.Netconf.Sessions.Expiry.{cleanup_expired_sessions-Consistent, close_all-Consistent}
use arca_router.Netconf.Handlers.Configs.{Content, CommitHook}
use arca_router.Netconf.Handlers.Hooks.{HookPersists}
use arca_router.Netconf.Handlers.Steps.{
  Event, connects, requests, disconnects, cleans_sessions, cleans_locks, shuts_down, IsConsistent,
  IsOrderly, AllOrderly, step, run,
}
use arca_router.Netconf.Handlers.Steps.Requests.{
  close_session-IsConsistent, handle_rpc-IsConsistent,
}

cleaned-IsConsistent :
    (now : ℕ) (st : State)
    → IsConsistent st
    → Consistent st.manager.sessions (with_tx st.database (perform_lock_cleanup now st.database)).0
cleaned-IsConsistent now st k =
    let db = st.database in
    elim (Result-cases (perform_lock_cleanup now db)) [
      | inl (failure, e) ↦ rw e k
      | inr ((u, db'), e) ↦ rw e (record {
        unique = k.unique;
        tables = subst Keeps e (perform_lock_cleanup-WellFormed db k.tables now);
        tracked = λ t row f.
            k.tracked t row (perform_lock_cleanup-lock_of now t db db' row k.tables.locks e f);
      })
    ]

module _ (content : Content) (protect : String → Option String) (hook : Option CommitHook)
    (sort : List String → List String) (sorts : IsSorter sort) (law : HookPersists hook) where
  step-IsConsistent :
      (st : State) (e : ℕ × Event content.Config)
      → IsConsistent st
      → IsOrderly content protect hook sort st e
      → IsConsistent (step content protect hook sort st e)
  unfolding step create
  step-IsConsistent st (now, connects uuid username role) k fresh =
      created-Consistent st.manager.sessions st.database k _ fresh
  step-IsConsistent st (now, requests s rpc) k live =
      handle_rpc-IsConsistent content protect hook sort sorts law now s rpc st k live
  step-IsConsistent st (now, disconnects id) k fresh =
      close_session-IsConsistent content protect hook sort sorts law now id st k
  step-IsConsistent st (now, cleans_sessions) k fresh =
      cleanup_expired_sessions-Consistent sort sorts now st k
  step-IsConsistent st (now, cleans_locks) k fresh = cleaned-IsConsistent now st k
  step-IsConsistent st (now, shuts_down) k fresh = close_all-Consistent sort sorts now st k

  -- After any sequence of connections, requests, ends of sessions and clean-ups in which no request is
  -- served for a session that the manager has closed, and with UUIDs that are not in use when they
  -- are drawn, a commit hook that succeeds with what it was to store, and a sort that keeps the
  -- names of a list: from a consistent state on, every lock in the datastore belongs to a session
  -- that the manager still has and that tracks the lock.
  pub run-IsConsistent :
      (st : State) (es : List (ℕ × Event content.Config))
      → IsConsistent st
      → AllOrderly content protect hook sort st es
      → IsConsistent (run content protect hook sort st es)
  unfolding run
  run-IsConsistent st [] k fresh = k
  run-IsConsistent st (e ∷ es) k fresh =
      run-IsConsistent (step content protect hook sort st e) es (step-IsConsistent st e k fresh.0)
        fresh.1
