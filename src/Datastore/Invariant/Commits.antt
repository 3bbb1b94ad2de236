-- ===== src/Datastore/Invariant/Commits.antt =====
-- Commit, rollback and the candidates keep the tables well formed.
use text.Mathlib.TextEquality.{eq_iff}
use arca_router.Prelude.{
  ℕ, ◌+◌, true, false, List, [], ◌∷◌, ◌++◌, Option, none, some, String, ok, err, ◌≡◌, refl, arith,
  Option-cases, if-elim, inl, inr, ◌==◌, length,
}
use arca_router.Datastore.Table.{
  select, insert, HasUniqueKeys, select-insert, insert-HasUniqueKeys, delete_if-HasUniqueKeys,
  update-HasUniqueKeys,
}
use arca_router.Datastore.Schema.{
  RunningRow, HistoryRow, Database, Tx, lock_key, candidate_key, running_key, history_key,
}
use arca_router.Datastore.Commits.{
  clear_current, has_current, commit, rollback, upsert_candidate, save_candidate, delete_candidate,
  cleanup_ephemeral_state,
}
use arca_router.Datastore.Commits.{new_candidate, running_row}
use arca_router.Datastore.Commits.Running.{
  clear_current-none, select-clear_current, insert_current-insert,
}
use arca_router.Datastore.Commits.Facts.{Promoted, commit-CommitFacts, rollback-RollbackFacts}
use arca_router.Datastore.Table.{append-HasUniqueKeys, insert-eq-append}
use arca_router.Datastore.Schema.{CandidateRow, CommitRequest, RollbackRequest}
use arca_router.Datastore.WellFormed.{
  HasOneCurrent, HasCurrent, IsRecorded, WellFormed, Keeps, relocked,
}

clear_current-HasUniqueKeys :
    (rows : List RunningRow)
    → HasUniqueKeys running_key rows
    → HasUniqueKeys running_key (clear_current rows)
unfolding clear_current
clear_current-HasUniqueKeys [] u = tt
clear_current-HasUniqueKeys (r ∷ rs) u =
    (select-clear_current r.commit_id rs u.0, clear_current-HasUniqueKeys rs u.1)

clear_current-IsRecorded :
    (history : List HistoryRow) (rows : List RunningRow)
    → IsRecorded history rows
    → IsRecorded history (clear_current rows)
unfolding clear_current
clear_current-IsRecorded history [] h = tt
clear_current-IsRecorded history (r ∷ rs) h = (h.0, clear_current-IsRecorded history rs h.1)

none-HasOneCurrent : (rows : List RunningRow) → has_current rows ≡ false → HasOneCurrent rows
unfolding has_current
none-HasOneCurrent [] h = tt
none-HasOneCurrent (r ∷ rs) h = (λ e. ground arith, none-HasOneCurrent rs (ground arith))

append-HasOneCurrent :
    (rows : List RunningRow) (row : RunningRow)
    → has_current rows ≡ false
    → HasOneCurrent (rows ++ row ∷ [])
unfolding has_current
append-HasOneCurrent [] row h = (λ _. refl, tt)
append-HasOneCurrent (r ∷ rs) row h =
    (λ e. ground arith, append-HasOneCurrent rs row (ground arith))

has_current-append :
    (rows : List RunningRow) (row : RunningRow)
    → row.is_current ≡ true
    → has_current (rows ++ row ∷ []) ≡ true
unfolding has_current
has_current-append [] row h = ground arith
has_current-append (r ∷ rs) row h = ground (arith, has_current-append rs row h)

append-HasCurrent :
    (rows : List RunningRow) (row : RunningRow)
    → row.is_current ≡ true
    → HasCurrent (rows ++ row ∷ [])
append-HasCurrent [] row h = has_current-append [] row h
append-HasCurrent (r ∷ rs) row h = has_current-append (r ∷ rs) row h

append-IsRecorded :
    (history : List HistoryRow) (rows : List RunningRow) (row : RunningRow) (e : HistoryRow)
    → IsRecorded history rows
    → select history_key row.commit_id history ≡ some e
    → e.config_text ≡ row.config_text
    → IsRecorded history (rows ++ row ∷ [])
append-IsRecorded history [] row e h s t = ((e, s, t), tt)
append-IsRecorded history (r ∷ rs) row e h s t = (h.0, append-IsRecorded history rs row e h.1 s t)

-- A new entry leaves the recorded ones where they are.
insert-IsRecorded :
    (entry : HistoryRow) (history : List HistoryRow) (rows : List RunningRow)
    {history' : List HistoryRow}
    → insert history_key entry history ≡ some history'
    → IsRecorded history rows
    → IsRecorded history' rows
insert-IsRecorded entry history [] i h = tt
insert-IsRecorded entry history (r ∷ rs) i h =
    let (e, s, t) = h.0 in
    let law = select-insert history_key r.commit_id entry history i in
    (
      (e, ground (arith, law, eq_iff entry.commit_id r.commit_id), t),
      insert-IsRecorded entry history rs i h.1,
    )

promote-WellFormed :
    (entry : HistoryRow) (db : Database) {promoted : Database}
    → WellFormed db
    → Promoted entry db promoted
    → WellFormed promoted
promote-WellFormed entry db v p =
    let row = running_row entry in
    let cleared = clear_current db.running_config in
    let added = insert_current-insert row cleared p.current in
    let shape = insert-eq-append running_key row cleared added in
    let stands = (select-insert history_key entry.commit_id entry db.commit_history p.logged).1 in
    let kept =
      insert-IsRecorded entry db.commit_history cleared p.logged
        (clear_current-IsRecorded db.commit_history db.running_config v.recorded) in
    rw p.result (record {
      locks = v.locks;
      candidates = v.candidates;
      running =
          insert-HasUniqueKeys running_key row cleared added
            (clear_current-HasUniqueKeys db.running_config v.running);
      history = insert-HasUniqueKeys history_key entry db.commit_history p.logged v.history;
      one_current =
          rw shape (append-HasOneCurrent cleared row (clear_current-none db.running_config));
      current = rw shape (append-HasCurrent cleared row refl);
      recorded = rw shape (
          append-IsRecorded p.history cleared row entry kept
            (ground (arith, stands, eq_iff entry.commit_id entry.commit_id)) refl);
    })

Keeps-of :
    {A : Type 0} (r : Tx A) → ((a : A) (db : Database) → r ≡ ok (a, db) → WellFormed db) → Keeps r
Keeps-of (ok (a, db)) h = h a db refl
Keeps-of (err e) h = tt

pub commit-WellFormed :
    (db : Database) (v : WellFormed db) (now : ℕ) (id : String) (req : Option CommitRequest)
    → Keeps (commit now id req db)
commit-WellFormed db v now id none = unfold commit in tt
commit-WellFormed db v now id (some req) = Keeps-of (commit now id (some req) db) λ id' db' h.
    let f = commit-CommitFacts now id req db h in
    let w = promote-WellFormed _ db v f.wrote in
    rw f.result (record {
      locks = delete_if-HasUniqueKeys lock_key _ _ f.promoted.config_locks w.locks;
      candidates =
          delete_if-HasUniqueKeys candidate_key _ _ f.promoted.candidate_configs w.candidates;
      running = w.running;
      history = w.history;
      one_current = w.one_current;
      current = w.current;
      recorded = w.recorded;
    })

pub rollback-WellFormed :
    (db : Database) (v : WellFormed db) (now : ℕ) (id : String) (req : Option RollbackRequest)
    → Keeps (rollback now id req db)
rollback-WellFormed db v now id none = unfold rollback in tt
rollback-WellFormed db v now id (some req) = Keeps-of (rollback now id (some req) db) λ id' db' h.
    let f = rollback-RollbackFacts now id req db h in
    let w = promote-WellFormed _ db v f.wrote in
    rw f.result (
      relocked f.promoted w _ _
        (delete_if-HasUniqueKeys lock_key _ _ f.promoted.config_locks w.locks))

recandidated :
    (db : Database) (v : WellFormed db) (candidates : List CandidateRow)
    → HasUniqueKeys candidate_key candidates
    → WellFormed (record db { candidate_configs = candidates })
recandidated db v candidates u = record {
  locks = v.locks;
  candidates = u;
  running = v.running;
  history = v.history;
  one_current = v.one_current;
  current = v.current;
  recorded = v.recorded;
}

upsert_candidate-HasUniqueKeys :
    (now : ℕ) (session_id text : String) (rows : List CandidateRow)
    → HasUniqueKeys candidate_key rows
    → HasUniqueKeys candidate_key (upsert_candidate now session_id text rows)
unfolding upsert_candidate
upsert_candidate-HasUniqueKeys now session_id text rows u =
    elim (Option-cases (select candidate_key session_id rows)) [
      | inl e ↦
          rw (e, upsert_candidate)
            (append-HasUniqueKeys candidate_key rows (new_candidate now session_id text) u e)
      | inr (row, e) ↦
          rw (e, upsert_candidate)
            (update-HasUniqueKeys candidate_key session_id _ rows (λ r. refl) u)
    ]

pub save_candidate-WellFormed :
    (protect : String → Option String) (db : Database) (v : WellFormed db) (now : ℕ)
    (session_id text : String)
    → Keeps (save_candidate protect now session_id text db)
unfolding save_candidate
save_candidate-WellFormed protect db v now session_id text = elim (Option-cases (protect text)) [
  | inl e ↦ rw e tt
  | inr (t, e) ↦ rw e (
      recandidated db v _
        (upsert_candidate-HasUniqueKeys now session_id t db.candidate_configs v.candidates))
]

pub delete_candidate-WellFormed :
    (db : Database) (v : WellFormed db) (session_id : String)
    → Keeps (delete_candidate session_id db)
unfolding delete_candidate
delete_candidate-WellFormed db v session_id =
    recandidated db v _
      (delete_if-HasUniqueKeys candidate_key session_id _ db.candidate_configs v.candidates)

pub cleanup_ephemeral_state-WellFormed :
    (db : Database) (v : WellFormed db) → Keeps (cleanup_ephemeral_state db)
unfolding cleanup_ephemeral_state
cleanup_ephemeral_state-WellFormed db v =
    let empty = recandidated db v [] tt in
    if-elim Keeps (length db.candidate_configs + length db.config_locks == 0)
      (relocked _ empty [] _ tt) (relocked _ empty [] _ tt)
