-- ===== src/Netconf/Sessions.antt =====
-- pkg/netconf/session.go. A session object is named by its UUID, which `Create` draws: the map of
-- sessions holds the objects, and the index by session-id holds their names. The clock and the UUID
-- are arguments; a duration of 0 stands for any that is not positive. The SSH connection, the contexts
-- and the ticker are left out, and the manager has a datastore.
pub mod Covers
pub mod Releases
pub mod Tracked
pub mod Expiry
pub mod Closing
pub mod Index
use text.Mathlib.Text.{◌==◌ as str_eq}
use arca_router.Prelude.{
  ℕ, ◌+◌, ◌-◌, ◌*◌, ◌^◌, ◌%◌, Bool, true, false, not, ◌&&◌, ◌||◌, List, [], ◌∷◌, ◌++◌, Option, none,
  some, String, Result, ok, err, ltb, ◌==◌, if◌then◌else◌, length,
}
use arca_router.Datastore.Table.{select, delete, replace, update}
use arca_router.Datastore.Schema.{nanoseconds, Database, with_tx}
use arca_router.Datastore.Locks.{release_lock}

-- `NETCONFSession`; `datastore_locks` is a set.
pub record Session : Type 0 where
  pub id : String
  pub numeric_id : ℕ
  pub username : String
  pub role : String
  pub created_at : ℕ
  pub last_used : ℕ
  pub idle_timeout : ℕ
  pub absolute_timeout : ℕ
  pub base_version : String
  pub datastore_locks : List String

abbrev pub session_key : Session → String
session_key s = s.id

-- An entry of `numericIDIndex`.
pub record IndexEntry : Type 0 where
  pub numeric_id : ℕ
  pub id : String

-- The fields of `SSHConfig` that the manager reads.
pub record SshConfig : Type 0 where
  pub idle_timeout : ℕ
  pub absolute_timeout : ℕ
  pub max_sessions : ℕ

pub record SessionManager : Type 0 where
  pub sessions : List Session
  pub numeric_id_index : List IndexEntry
  pub config : SshConfig

abbrev pub minutes : ℕ → ℕ
minutes n = n * 60 * nanoseconds

abbrev pub default_ssh_config : SshConfig
default_ssh_config = record {
  idle_timeout = minutes 30;
  absolute_timeout = minutes 1440;
  max_sessions = 100;
}

abbrev positive_or : ℕ → ℕ → ℕ
positive_or n default = if n == 0 then default else n

-- `sessionManagerConfigWithDefaults`
unfoldable pub config_with_defaults : Option SshConfig → SshConfig
config_with_defaults none = default_ssh_config
config_with_defaults (some config) = record {
  idle_timeout = positive_or config.idle_timeout default_ssh_config.idle_timeout;
  absolute_timeout = positive_or config.absolute_timeout default_ssh_config.absolute_timeout;
  max_sessions = positive_or config.max_sessions default_ssh_config.max_sessions;
}

abbrev pub new_session_manager : Option SshConfig → SessionManager
unfolding config_with_defaults
new_session_manager config = record {
  sessions = [];
  numeric_id_index = [];
  config = config_with_defaults config;
}

unfoldable pub index_get : ℕ → List IndexEntry → Option String
index_get n [] = none
index_get n (e ∷ es) = if e.numeric_id == n then some e.id else index_get n es

unfoldable pub index_delete : ℕ → List IndexEntry → List IndexEntry
index_delete n [] = []
index_delete n (e ∷ es) =
    let rest = index_delete n es in if e.numeric_id == n then rest else e ∷ rest

unfoldable pub index_put : ℕ → String → List IndexEntry → List IndexEntry
index_put n id es = record { numeric_id = n; id = id } ∷ index_delete n es

abbrev pub get : String → SessionManager → Option Session
get id sm = select session_key id sm.sessions

unfoldable pub get_by_numeric_id : ℕ → SessionManager → Option Session
get_by_numeric_id n sm = elim (index_get n sm.numeric_id_index) [
  | none ↦ none
  | some id ↦ get id sm
]

abbrev pub count : SessionManager → ℕ
count sm = length sm.sessions

-- `atomic.AddUint32(&sessionIDCounter, 1)`
abbrev pub next_session_id : ℕ → ℕ
next_session_id counter = (counter + 1) % 2 ^ 32

abbrev pub new_session : ℕ → String → ℕ → String → String → SshConfig → Session
new_session now uuid number username role config = record {
  id = uuid;
  numeric_id = number;
  username = username;
  role = role;
  created_at = now;
  last_used = now;
  idle_timeout = config.idle_timeout;
  absolute_timeout = config.absolute_timeout;
  base_version = "1.1";
  datastore_locks = [];
}

abbrev add_session : Session → SessionManager → SessionManager
add_session s sm = record sm {
  sessions = replace session_key s sm.sessions;
  numeric_id_index = index_put s.numeric_id s.id sm.numeric_id_index;
}

-- `Create`, with the counter before and after.
unfoldable pub create :
    ℕ → String → String → String → ℕ → SessionManager → Session × ℕ × SessionManager
unfolding config_with_defaults
create now uuid username role counter sm =
    let number = next_session_id counter in
    let config = config_with_defaults (some sm.config) in
    let session = new_session now uuid number username role config in
    (session, number, add_session session (record sm { config = config }))

unfoldable pub has_lock : String → List String → Bool
has_lock target [] = false
has_lock target (t ∷ ts) = str_eq t target || has_lock target ts

unfoldable pub add_lock : String → Session → Session
add_lock target s = record s {
  datastore_locks =
      if has_lock target s.datastore_locks then s.datastore_locks else target ∷ s.datastore_locks;
}

unfoldable pub without : String → List String → List String
without target [] = []
without target (t ∷ ts) = let rest = without target ts in if str_eq t target then rest else t ∷ rest

abbrev pub remove_lock : String → Session → Session
remove_lock target s = record s { datastore_locks = without target s.datastore_locks }

-- `UpdateLastUsed` of the manager and of a session.
abbrev pub touch : ℕ → Session → Session
touch now s = record s { last_used = now }

unfoldable pub update_last_used : ℕ → String → SessionManager → SessionManager
update_last_used now id sm = record sm { sessions = update session_key id (touch now) sm.sessions }

-- The loop of `closeSession` over the locks of a session.
unfoldable pub release_all : ℕ → List String → Session → Database → Session × Database
release_all now [] s db = (s, db)
release_all now (target ∷ targets) s db =
    let (db', outcome) = with_tx db (release_lock now target s.id db) in
    let s' : Session = elim outcome [ ok _ ↦ remove_lock target s | err _ ↦ s ] in
    release_all now targets s' db'

abbrev pub forget : Session → SessionManager → SessionManager
forget s sm = record sm {
  sessions = delete session_key s.id sm.sessions;
  numeric_id_index = index_delete s.numeric_id sm.numeric_id_index;
}

-- `now.Sub(session.CreatedAt) > session.AbsoluteTimeout`, and the same for the idle time.
unfoldable pub has_expired : ℕ → Session → Bool
has_expired now s =
    ltb s.absolute_timeout (now - s.created_at) || ltb s.idle_timeout (now - s.last_used)

unfoldable pub expired_sessions : ℕ → List Session → List Session
expired_sessions now [] = []
expired_sessions now (s ∷ ss) =
    let rest = expired_sessions now ss in if has_expired now s then s ∷ rest else rest

unfoldable pub forget_all : List Session → SessionManager → SessionManager
forget_all [] sm = sm
forget_all (s ∷ ss) sm = forget_all ss (forget s sm)

-- The manager and the datastore that it releases locks in.
pub record State : Type 0 where
  pub manager : SessionManager
  pub counter : ℕ
  pub database : Database

-- `sort` is `sort.Strings`, which `GetLocks` applies to the set.
module _ (sort : List String → List String) where
  abbrev pub get_locks : Session → List String
  get_locks s = sort s.datastore_locks

  -- `closeSession`
  abbrev pub close : ℕ → Session → Database → Database
  close now s db = (release_all now (get_locks s) s db).1

  unfoldable pub close_each : ℕ → List Session → Database → Database
  close_each now [] db = db
  close_each now (s ∷ ss) db = close_each now ss (close now s db)

  unfoldable pub close_session : ℕ → String → State → State
  close_session now id st = elim (get id st.manager) [
    | none ↦ st
    | some s ↦ record st { manager = forget s st.manager; database = close now s st.database }
  ]

  -- `none` is the error for a session that is not found.
  unfoldable pub close_session_by_numeric_id : ℕ → ℕ → State → Option State
  close_session_by_numeric_id now n st = elim (get_by_numeric_id n st.manager) [
    | none ↦ none
    | some s ↦ some (record st {
      manager = record st.manager {
        sessions = delete session_key s.id st.manager.sessions;
        numeric_id_index = index_delete n st.manager.numeric_id_index;
      };
      database = close now s st.database;
    })
  ]

  unfoldable pub close_all : ℕ → State → State
  close_all now st = record st {
    manager = record st.manager { sessions = []; numeric_id_index = [] };
    database = close_each now st.manager.sessions st.database;
  }

  unfoldable pub cleanup_expired_sessions : ℕ → State → State
  cleanup_expired_sessions now st =
      let to_close = expired_sessions now st.manager.sessions in
      record st {
        manager = forget_all to_close st.manager;
        database = close_each now to_close st.database;
      }
