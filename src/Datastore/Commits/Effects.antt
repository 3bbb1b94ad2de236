-- ===== src/Datastore/Commits/Effects.antt =====
-- The tables after a commit and after a rollback.
use text.Mathlib.Text.{◌==◌ as str_eq}
use text.Mathlib.TextEquality.{eq_iff}
use arca_router.Prelude.{
  ℕ, true, false, List, [], ◌∷◌, ◌++◌, none, some, String, ok, err, or_fail, or_fail-eq-ok, ◌≡◌,
  ◌≢◌, refl, ap, ◌∙◌, arith, if◌then◌else◌, Bool-cases, inl, inr,
}
use arca_router.Datastore.Table.{select, delete, select-insert, select-delete_if, insert-eq-append}
use arca_router.Datastore.Schema.{
  not_found, lock_target_candidate, lock_target_running, CandidateRow, RunningRow, HistoryRow,
  CommitRequest, RollbackRequest, Database, lock_key, candidate_key, running_key, history_key,
}
use arca_router.Datastore.Locks.{lock_of}
use arca_router.Datastore.Commits.{
  clear_current, running_row, commit_entry, commit, release_candidate, get_commit, get_running,
  get_candidate, rollback_entry, rollback,
}
use arca_router.Datastore.Commits.Running.{
  clear_current-none, insert_current-insert, current_row-append,
}
use arca_router.Datastore.Commits.Facts.{
  HoldsLock, Promoted, commit-CommitFacts, rollback-RollbackFacts,
}
use arca_router.Datastore.WellFormed.{WellFormed}

-- What both transactions leave: `text` runs under `id` and stands in the history, no entry is lost,
-- the candidate lock is free and the lock of the running configuration is as before.
pub record Promotes (id text : String) (db db' : Database) : Type 0 where
  pub row : RunningRow
  pub running : get_running db' ≡ ok row
  pub running_id : row.commit_id ≡ id
  pub running_text : row.config_text ≡ text
  pub entry : HistoryRow
  pub logged : get_commit id db' ≡ ok entry
  pub logged_text : entry.config_text ≡ text
  pub kept : (j : String) (e : HistoryRow) → get_commit j db ≡ ok e → get_commit j db' ≡ ok e
  pub unlocked : lock_of db' lock_target_candidate ≡ none
  pub other_lock : lock_of db' lock_target_running ≡ lock_of db lock_target_running

release_candidate-none :
    (now : ℕ) (session_id : String) (db : Database)
    → WellFormed db
    → HoldsLock now session_id db
    → select lock_key lock_target_candidate (release_candidate session_id db.config_locks) ≡ none
release_candidate-none now session_id db v h =
    rw
      (
        select-delete_if lock_key lock_target_candidate lock_target_candidate
            (λ lock. str_eq lock.session_id session_id) db.config_locks v.locks,
        h.found,
      )
      (ground (
        arith,
        eq_iff lock_target_candidate lock_target_candidate,
        eq_iff h.lock.session_id session_id,
        h.owner,
      ))

targets_differ : str_eq lock_target_candidate lock_target_running ≡ false
targets_differ = refl

release_candidate-other :
    (session_id : String) (db : Database)
    → WellFormed db
    → select lock_key lock_target_running (release_candidate session_id db.config_locks)
      ≡ lock_of db lock_target_running
release_candidate-other session_id db v =
    select-delete_if lock_key lock_target_candidate lock_target_running
      (λ lock. str_eq lock.session_id session_id) db.config_locks v.locks
    ∙ ground (arith, targets_differ)

kept_row :
    (entry : HistoryRow) (history : List HistoryRow) (j : String) (e : HistoryRow)
    → select history_key entry.commit_id history ≡ none
    → or_fail (select history_key j history) not_found ≡ ok e
    → or_fail
        (if str_eq entry.commit_id j then some entry else select history_key j history)
        not_found
      ≡ ok e
kept_row entry history j e fresh found = elim (Bool-cases (str_eq entry.commit_id j)) [
  | inl same ↦
      let eq = (eq_iff entry.commit_id j).0 same in
      cc (
        or_fail-eq-ok (select history_key j history) not_found found,
        ap (λ x. select history_key x history) eq,
        fresh,
      )
  | inr other ↦ rw other found
]

get_running-Promoted :
    (entry : HistoryRow) (db promoted db' : Database)
    → Promoted entry db promoted
    → db'.running_config ≡ promoted.running_config
    → get_running db' ≡ ok (running_row entry)
unfolding get_running
get_running-Promoted entry db promoted db' p r =
    let cleared = clear_current db.running_config in
    let row = running_row entry in
    let shape =
      insert-eq-append running_key row cleared (insert_current-insert row cleared p.current) in
    let rows : db'.running_config ≡ cleared ++ row ∷ [] =
      r ∙ ap (λ (x : Database). x.running_config) p.result ∙ shape in
    rw (rows, current_row-append cleared row (clear_current-none db.running_config) refl) refl

logged_at_end :
    (entry : HistoryRow) (db promoted db' : Database)
    → Promoted entry db promoted
    → db'.commit_history ≡ promoted.commit_history
    → db'.commit_history ≡ db.commit_history ++ entry ∷ []
logged_at_end entry db promoted db' p c =
    c
    ∙ ap (λ (x : Database). x.commit_history) p.result
    ∙ insert-eq-append history_key entry db.commit_history p.logged

promote-Promotes :
    (now : ℕ) (session_id : String) (entry : HistoryRow) (db promoted db' : Database)
    → WellFormed db
    → HoldsLock now session_id db
    → Promoted entry db promoted
    → db'.running_config ≡ promoted.running_config
    → db'.commit_history ≡ promoted.commit_history
    → db'.config_locks ≡ release_candidate session_id promoted.config_locks
    → Promotes entry.commit_id entry.config_text db db'
unfolding get_commit
promote-Promotes now session_id entry db promoted db' v h p r c l =
    let law = λ (j : String). select-insert history_key j entry db.commit_history p.logged in
    let log : db'.commit_history ≡ p.history =
      c ∙ ap (λ (x : Database). x.commit_history) p.result in
    let locks : db'.config_locks ≡ release_candidate session_id db.config_locks =
      l ∙ ap (λ (x : Database). release_candidate session_id x.config_locks) p.result in
    record {
      row = running_row entry;
      running = get_running-Promoted entry db promoted db' p r;
      running_id = refl;
      running_text = refl;
      entry = entry;
      logged =
          rw (log, (law entry.commit_id).1)
            (ground (arith, eq_iff entry.commit_id entry.commit_id));
      logged_text = refl;
      kept =
          λ j e found. rw (log, (law j).1) (kept_row entry db.commit_history j e (law j).0 found);
      unlocked = rw locks (release_candidate-none now session_id db v h);
      other_lock = rw locks (release_candidate-other session_id db v);
    }

-- What `Commit` leaves where it succeeds: the session's candidate runs and is recorded under the new
-- id, it is no candidate any more, and the candidates of the other sessions are as before.
pub record Committed (now : ℕ) (id : String) (req : CommitRequest) (db db' : Database)
    : Type 0 where
  pub candidate : CandidateRow
  pub saved : get_candidate req.session_id db ≡ ok candidate
  pub promotes : Promotes id candidate.config_text db db'
  -- The row that runs, and the one entry that the history gains.
  pub current :
      get_running db'
      ≡ ok (record {
        commit_id = id;
        config_text = candidate.config_text;
        timestamp = now;
        is_current = true;
      })
  pub history :
      db'.commit_history
      ≡ db.commit_history
        ++ (record {
          commit_id = id;
          user = req.user;
          timestamp = now;
          message = req.message;
          config_text = candidate.config_text;
          is_rollback = false;
          source_ip = req.source_ip;
        })
          ∷ []
  pub gone : get_candidate req.session_id db' ≡ err not_found
  pub others : (s : String) → s ≢ req.session_id → get_candidate s db' ≡ get_candidate s db

-- From well-formed tables, a commit that succeeds was made by the holder of an unexpired candidate
-- lock. The text of the session's candidate runs under the drawn id. The history gains one entry at
-- its end, with the id, the user, the time, the message, the text and the address of the request, and
-- is otherwise as before. The session has no candidate any more, the candidates of the others are
-- as before, the candidate lock is free and the lock of the running configuration is as before.
pub commit-Committed :
    (now : ℕ) (id : String) (req : CommitRequest) (db : Database) {id' : String} {db' : Database}
    → WellFormed db
    → commit now id (some req) db ≡ ok (id', db')
    → HoldsLock now req.session_id db × Committed now id req db db'
unfolding get_candidate
commit-Committed now id req db {db'} v h =
    let f = commit-CommitFacts now id req db h in
    let entry = commit_entry now id req f.candidate in
    let rows = ap (λ (x : Database). x.running_config) f.result in
    let history = ap (λ (x : Database). x.commit_history) f.result in
    let locks = ap (λ (x : Database). x.config_locks) f.result in
    let candidates : db'.candidate_configs
        ≡ delete candidate_key req.session_id db.candidate_configs =
      ap (λ (x : Database). x.candidate_configs) f.result
      ∙ ap (λ (x : Database). delete candidate_key req.session_id x.candidate_configs)
          f.wrote.result in
    let law = λ (s : String).
      select-delete_if candidate_key req.session_id s (λ _. true) db.candidate_configs
        v.candidates in
    (
      f.holds,
      record {
        candidate = f.candidate;
        saved = rw f.saved refl;
        promotes =
            promote-Promotes now req.session_id entry db f.promoted db' v f.holds f.wrote rows
              history locks;
        current = get_running-Promoted entry db f.promoted db' f.wrote rows;
        history = logged_at_end entry db f.promoted db' f.wrote history;
        gone =
            rw (candidates, law req.session_id, f.saved)
              (ground (arith, eq_iff req.session_id req.session_id));
        others = λ s ne. rw (candidates, law s) (ground (arith, eq_iff req.session_id s));
      },
    )

-- A rollback that succeeds was made by the holder of an unexpired candidate lock. The text of the
-- commit that it names runs again under a new id, and no session's candidate is touched.
pub rollback-Promotes :
    (now : ℕ) (id : String) (req : RollbackRequest) (db : Database) {id' : String} {db' : Database}
    → WellFormed db
    → rollback now id (some req) db ≡ ok (id', db')
    → HoldsLock now req.session_id db
      × ((target : HistoryRow) × (get_commit req.commit_id db ≡ ok target)
          × Promotes id target.config_text db db'
          × (db'.candidate_configs ≡ db.candidate_configs))
unfolding get_commit
rollback-Promotes now id req db {db'} v h =
    let f = rollback-RollbackFacts now id req db h in
    (
      f.holds,
      (
        f.target,
        rw f.found refl,
        promote-Promotes now req.session_id (rollback_entry now id req f.target) db f.promoted db' v
            f.holds f.wrote (ap (λ (x : Database). x.running_config) f.result)
            (ap (λ (x : Database). x.commit_history) f.result)
            (ap (λ (x : Database). x.config_locks) f.result),
        ap (λ (x : Database). x.candidate_configs) f.result
            ∙ ap (λ (x : Database). x.candidate_configs) f.wrote.result,
      ),
    )
