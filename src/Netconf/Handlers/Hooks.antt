-- ===== src/Netconf/Handlers/Hooks.antt =====
-- What pkg/netconf/rpc_transaction.go asks of a commit hook.
use arca_router.Prelude.{Option, none, some, String, Result, ok, err, ◌≡◌, ◌⊎◌, refl, sym, ap, inr}
use arca_router.Datastore.Schema.{ErrorCode, CommitRequest, Database}
use arca_router.Netconf.Handlers.Configs.{
  CommitFailure, CommitHook, Persist, persist_by, without_hook,
}

-- What a commit hook is for: it succeeds with what `persist` gave it, and where it fails the tables
-- are those from before or those that `persist` left.
abbrev pub HookPersists : Option CommitHook → Type 0
HookPersists none = Unit {0}
HookPersists (some hook) =
    (req : CommitRequest) (text : String) (persist : Persist) (d d' : Database)
    → ((id : String) → hook req text persist d ≡ (d', ok id) → persist d ≡ (d', ok id))
      × ((failure : CommitFailure)
          → hook req text persist d ≡ (d', err failure)
          → (d' ≡ d) ⊎ (d' ≡ (persist d).0))

-- The same of `persist_by`, whatever hook there is.
abbrev pub Persisted : Persist → Database → Database × Result CommitFailure String → Type 0
Persisted persist d (d', ok id) = persist d ≡ (d', ok id)
Persisted persist d (d', err failure) = (d' ≡ d) ⊎ (d' ≡ (persist d).0)

without_hook-Persisted :
    (persist : Persist) (d : Database) (r : Database × Result ErrorCode String)
    → persist d ≡ r
    → Persisted persist d (without_hook r)
without_hook-Persisted persist d (d', ok id) e = e
without_hook-Persisted persist d (d', err failure) e = inr (ap (λ x. x.0) (sym e))

hook-Persisted :
    (hook : CommitHook) (req : CommitRequest) (text : String) (persist : Persist) (d : Database)
    (r : Database × Result CommitFailure String)
    → HookPersists (some hook)
    → hook req text persist d ≡ r
    → Persisted persist d r
hook-Persisted hook req text persist d (d', ok id) law e = (law req text persist d d').0 id e
hook-Persisted hook req text persist d (d', err failure) law e =
    (law req text persist d d').1 failure e

pub persist_by-Persisted :
    (hook : Option CommitHook) (req : CommitRequest) (text : String) (persist : Persist)
    (d : Database)
    → HookPersists hook
    → Persisted persist d (persist_by hook req text persist d)
unfolding persist_by
persist_by-Persisted none req text persist d law = without_hook-Persisted persist d (persist d) refl
persist_by-Persisted (some hook) req text persist d law =
    hook-Persisted hook req text persist d (hook req text persist d) law refl
