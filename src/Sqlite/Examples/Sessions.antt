-- ===== src/Sqlite/Examples/Sessions.antt =====
-- Programs over transactions on an SQLite object.
use storm_byte_database.Prelude.{◌≡◌, refl, ◌+◌, true, List, [], ◌∷◌}
use storm_byte_database.Rows.{vector_rows}
use storm_byte_database.Transaction.{transaction, destroy, commit, move_assign}
use storm_byte_database.Transaction.Store.{
  Step, begin, commits_at, destroys_at, move_assigns, run, step, assign_objects, empty_store,
}
use storm_byte_database.Database.{IsolationLevel}
use storm_byte_database.Session.{Session, session_run, transcript}
use storm_byte_database.Session.Refine.{session_run-transcript}
use storm_byte_database.Session.Ends.{is_begin, is_end, count, session_ends_each}
use storm_byte_database.Sqlite.Client.{Env}
use storm_byte_database.Sqlite.Statement.{Stmt}
use storm_byte_database.Sqlite.Members.{Own}
use storm_byte_database.Sqlite.Connection.Transactions.{
  executed, sent, begins_by, backend-Sends, begins_by-OneBegin,
}
use storm_byte_database.Sqlite.Examples.Objects.{one_row, hook, sqlite, holder}

-- Two transactions, of which the first is replaced by the second, and the second commits.
abbrev program : List Step
program =
    begin 1 IsolationLevel.default
    ∷ begin 1 IsolationLevel.serializable
    ∷ move_assigns 0 1
    ∷ commits_at 0
    ∷ destroys_at 1
    ∷ destroys_at 0
    ∷ []

abbrev start : Session Stmt Own Env
start = record { store = empty_store; db = holder }

session_run-transcript_example :
    let s = session_run sqlite 1 program start in
    (s.store ≡ run program empty_store)
    × (s.db.connected ≡ true)
    × (sent s.db.env ≡ transcript begins_by 1 s.store.events [])
unfolding executed
session_run-transcript_example =
    session_run-transcript (backend-Sends one_row hook hook vector_rows) 1 program start refl

session_ends_each_example :
    let s = session_run sqlite 1 program start in
    count is_begin (sent s.db.env) + 0 ≡ count is_end (sent s.db.env) + 0
unfolding run step assign_objects move_assign commit destroy transaction executed count
session_ends_each_example =
    session_ends_each (backend-Sends one_row hook hook vector_rows) begins_by-OneBegin 1 program
      holder refl (refl, (refl, tt))
