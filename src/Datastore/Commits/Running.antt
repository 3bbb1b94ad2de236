-- ===== src/Datastore/Commits/Running.antt =====
-- The table of running configurations under the statements of a commit.
use arca_router.Prelude.{true, false, List, [], ◌∷◌, ◌++◌, none, some, String, ◌≡◌, refl, arith}
use arca_router.Datastore.Table.{select, insert}
use arca_router.Datastore.Schema.{RunningRow, running_key}
use arca_router.Datastore.Commits.{clear_current, has_current, insert_current}
use arca_router.Datastore.Commits.{current_row}

pub clear_current-none : (rows : List RunningRow) → has_current (clear_current rows) ≡ false
unfolding has_current clear_current
clear_current-none [] = refl
clear_current-none (r ∷ rs) = clear_current-none rs

pub select-clear_current :
    (k : String) (rows : List RunningRow)
    → select running_key k rows ≡ none
    → select running_key k (clear_current rows) ≡ none
unfolding select clear_current
select-clear_current k [] h = refl
select-clear_current k (r ∷ rs) h = ground (arith, select-clear_current k rs)

pub insert_current-insert :
    (row : RunningRow) (rows : List RunningRow) {rows' : List RunningRow}
    → insert_current row rows ≡ some rows'
    → insert running_key row rows ≡ some rows'
unfolding insert_current
insert_current-insert row rows h = ground arith

pub current_row-append :
    (rows : List RunningRow) (row : RunningRow)
    → has_current rows ≡ false
    → row.is_current ≡ true
    → current_row (rows ++ row ∷ []) ≡ some row
unfolding current_row has_current
current_row-append [] row h c = ground arith
current_row-append (r ∷ rs) row h c = ground (arith, current_row-append rs row)
