-- ===== src/Sqlite/Query.antt =====
-- lib/optional/StormByte/database/sqlite/sqlite3.cxx: `Query`, `SilentQuery` and `EnableForeignKeys`.
use storm_byte_database.Prelude.{
  ℕ, Text, text, Bool, true, false, not, Option, none, some, [], ◌∷◌, is_some, Action, pure, gets,
  modify, when, ◌>>=◌, ◌>>◌, if◌then◌else◌,
}
use storm_byte_database.Prelude.Words.{c_string}
use storm_byte_database.Exception.{Exception, err}
use storm_byte_database.Rows.{ExpectedRows, Iterable}
use storm_byte_database.Database.{debug, error, write_log}
use storm_byte_database.Sqlite.Client.{frees_message, prepares, executes, finalizes, Client}
use storm_byte_database.Sqlite.Fetch.{step_results}
use storm_byte_database.Sqlite.Members.{Sqlite, call}

module _ (c : Client) where
  module _ (it : Iterable) where
    pub not_connected : ExpectedRows
    not_connected = err (Exception.execute_error (text "Database not connected"))

    -- The statement of `Query` is run and finalized.
    unfoldable pub run_prepared : Option ℕ → Action Sqlite ExpectedRows
    unfolding call
    run_prepared stmt = do
      (result, calls) ← gets (λ db. step_results c it stmt db.env.calls)
      modify (λ db. record db { env = record db.env { calls = calls } })
      call (finalizes stmt)
      pure result

    unfoldable pub prepare_failed : Option ℕ → Option ℕ → Action Sqlite ExpectedRows
    unfolding call
    prepare_failed database stmt = do
      message ← gets (λ db. c.errmsg db.env.calls database)
      when (is_some stmt) (call (finalizes stmt))
      pure (err (Exception.execute_error message))

    -- `SQLite3::Query`
    unfoldable pub query : Text → Action Sqlite ExpectedRows
    unfolding call not_connected run_prepared prepare_failed
    query sql = do
      write_log debug (text "Executing query: " ∷ sql ∷ [])
      connected ← gets (λ db. db.connected)
      if not connected then pure not_connected else do
        database ← gets (λ db. db.own.database)
        (prepared, stmt) ← gets (λ db. c.prepare db.env.calls database (c_string sql))
        call (prepares database (c_string sql))
        if prepared then run_prepared stmt else prepare_failed database stmt

  -- `if (errMsg) { …; sqlite3_free(errMsg); }`
  unfoldable pub report : Option Text → Action Sqlite (Unit {0})
  unfolding call
  report none = pure tt
  report (some message) = do
    write_log error (text "SQLite3 SilentQuery error: " ∷ message ∷ [])
    call frees_message

  -- `SQLite3::DoSilentQuery`
  unfoldable pub do_silent_query : Text → Action Sqlite Bool
  unfolding call report
  do_silent_query sql = do
    write_log debug (text "Executing silent query: " ∷ sql ∷ [])
    connected ← gets (λ db. db.connected)
    if not connected then pure false else do
      database ← gets (λ db. db.own.database)
      (done, message) ← gets (λ db. c.exec db.env.calls database (c_string sql))
      call (executes database (c_string sql))
      if done then pure true else do report message; pure false

  -- `SQLite3::SilentQuery`
  unfoldable pub silent_query : Text → Action Sqlite Bool
  unfolding do_silent_query
  silent_query sql = do_silent_query sql

  -- `SQLite3::EnableForeignKeys`
  pub enable_foreign_keys : Action Sqlite (Unit {0})
  unfolding do_silent_query
  enable_foreign_keys = do do_silent_query (text "PRAGMA foreign_keys = ON;"); pure tt
