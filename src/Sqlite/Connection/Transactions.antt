-- ===== src/Sqlite/Connection/Transactions.antt =====
-- The transaction calls of an SQLite object: the texts that it executes for them.
use storm_byte_database.Prelude.{
  ◌≡◌, refl, Bool, inl, inr, Option, none, some, List, [], ◌∷◌, Text, text, text_eq, arith, Action,
  Bool-cases,
}
use storm_byte_database.Prelude.Words.{c_string, take}
use storm_byte_database.Rows.{Iterable}
use storm_byte_database.Database.{IsolationLevel, debug, write_log}
use storm_byte_database.Session.Sending.{Sent, Sends, commit_whole, rollback_whole}
use storm_byte_database.Session.Ends.{OneBegin, is_begin, is_end, count}
use storm_byte_database.Sqlite.Client.{Call, executes, Client, Env}
use storm_byte_database.Sqlite.Members.{Sqlite, call}
use storm_byte_database.Sqlite.Query.{report, do_silent_query}
use storm_byte_database.Sqlite.Connection.{begin_sql, do_begin, backend}
use storm_byte_database.Sqlite.Connection.Lifecycle.{write_log-same}

-- A connected object executes what it is asked to.
abbrev pub reaches : Sqlite → Bool
reaches db = db.connected

-- The texts of `sqlite3_exec`, newest first.
unfoldable pub executed : List Call → List Text
executed [] = []
executed (executes h sql ∷ calls) = sql ∷ executed calls
executed (_ ∷ calls) = executed calls

abbrev pub sent : Env → List Text
sent e = executed e.calls

abbrev pub begins_by : IsolationLevel → List Text
begins_by level = begin_sql level ∷ []

module _ (c : Client) where
  report-executed :
      (message : Option Text) (db : Sqlite)
      → let db' = (report c message db).1 in
        (db'.connected ≡ db.connected) × (sent db'.env ≡ sent db.env)
  unfolding report executed write_log
  report-executed none db = (refl, refl)
  report-executed (some m) db = ground arith

  do_silent_query-Sent :
      (sql : Text) (db : Sqlite)
      → c_string sql ≡ sql
      → Sent reaches sent (sql ∷ []) db (do_silent_query c sql db).1
  unfolding do_silent_query executed
  do_silent_query-Sent sql db whole =
      let line : List Text = text "Executing silent query: " ∷ sql ∷ [] in
      let d : Sqlite = (write_log debug line db).1 in
      let (z, o, e, m) = write_log-same debug line db in
      let asked : Sqlite = (call (executes d.own.database (c_string sql)) d).1 in
      let (x, y) = report-executed (c.exec d.env.calls d.own.database (c_string sql)).1 asked in
      elim (Bool-cases db.connected) [
        | inl on ↦ ground (arith, z, e, x, y, whole)
        | inr off ↦ ground (arith, z, e)
      ]

  begin_whole : (level : IsolationLevel) → c_string (begin_sql level) ≡ begin_sql level
  unfolding begin_sql text c_string
  begin_whole IsolationLevel.default = refl
  begin_whole IsolationLevel.read_uncommitted = refl
  begin_whole IsolationLevel.read_committed = refl
  begin_whole IsolationLevel.repeatable_read = refl
  begin_whole IsolationLevel.serializable = refl

  -- The contract of transactions, filled by the backend.
  pub backend-Sends :
      (pre_connect post_connect : Action Sqlite (Unit {0})) (it : Iterable)
      → Sends reaches sent (backend c pre_connect post_connect it) begins_by
  unfolding backend do_begin
  backend-Sends pre_connect post_connect it = record {
    reaches_own = λ db db' k o. k;
    begin_sends = λ level db. do_silent_query-Sent (begin_sql level) db (begin_whole level);
    commit_sends = λ db. do_silent_query-Sent (text "COMMIT;") db commit_whole;
    rollback_sends = λ db. do_silent_query-Sent (text "ROLLBACK;") db rollback_whole;
  }

pub begins_by-OneBegin : OneBegin begins_by
unfolding begin_sql count is_begin is_end text text_eq take
begins_by-OneBegin IsolationLevel.default = (refl, refl)
begins_by-OneBegin IsolationLevel.read_uncommitted = (refl, refl)
begins_by-OneBegin IsolationLevel.read_committed = (refl, refl)
begins_by-OneBegin IsolationLevel.repeatable_read = (refl, refl)
begins_by-OneBegin IsolationLevel.serializable = (refl, refl)
