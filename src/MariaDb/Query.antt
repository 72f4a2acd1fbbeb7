-- ===== src/MariaDb/Query.antt =====
-- lib/optional/StormByte/database/mariadb/mariadb.cxx: queries, and the warnings that are logged behind them.
pub mod Silent
pub mod Quiet
use storm_byte_database.Prelude.{
  ℕ, zero, suc, Text, text, Bool, true, false, not, ◌&&◌, Option, none, some, List, [], ◌∷◌, ◌==◌,
  Action, pure, gets, when, ◌>>=◌, ◌>>◌, if◌then◌else◌,
}
use storm_byte_database.Prelude.Words.{c_string}
use storm_byte_database.Exception.{Exception, ok, err}
use storm_byte_database.Rows.{ExpectedRows, Iterable}
use storm_byte_database.Database.{debug, notice, error, write_log}
use storm_byte_database.MariaDb.Client.{queries, stores_result, frees_result, fetches_row, Client}
use storm_byte_database.MariaDb.Fetch.{step_results}
use storm_byte_database.MariaDb.Members.{MariaDb, call, error_text}

module _ (c : Client) where
  -- One row of the answer to `SHOW WARNINGS`.
  abbrev cell_text : Option (List ℕ) → Text
  cell_text none = []
  cell_text (some s) = c_string s

  log_warning : ℕ → ℕ → Action MariaDb (Unit {0})
  unfolding call
  log_warning res r = do
    call (fetches_row res)
    write_log notice (
        text "MariaDB "
        ∷ cell_text (c.row_value res r 0)
        ∷ text " ("
        ∷ cell_text (c.row_value res r 1)
        ∷ text "): "
        ∷ cell_text (c.row_value res r 2)
        ∷ [])

  log_warning_rows : ℕ → ℕ → ℕ → Action MariaDb (Unit {0})
  unfolding log_warning
  log_warning_rows res r zero = pure tt
  log_warning_rows res r (suc n) = log_warning res r >> log_warning_rows res (suc r) n

  log_result : Option ℕ → Action MariaDb (Unit {0})
  unfolding call log_warning_rows
  log_result none = pure tt
  log_result (some res) = do
    log_warning_rows res 0 (c.num_rows res)
    call (fetches_row res)
    call (frees_result res)

  show_warnings : ℕ → Action MariaDb (Unit {0})
  unfolding call log_result
  show_warnings h = do
    good ← gets (λ db. c.real_query db.env h (text "SHOW WARNINGS"))
    call (queries h (text "SHOW WARNINGS"))
    if not good
        then pure tt
        else do res ← gets (λ db. c.store_result db.env h); call (stores_result h); log_result res

  -- `LogMariaDBWarnings`
  pub log_warnings : ℕ → Action MariaDb (Unit {0})
  unfolding show_warnings
  log_warnings h = do
    logger ← gets (λ db. db.has_logger)
    count ← gets (λ db. c.warning_count db.env h)
    when (logger && not (count == 0)) (show_warnings h)

  -- The connection that a query may use.
  abbrev usable : MariaDb → Option ℕ
  usable db = if db.connected then db.own.conn else none

  module _ (it : Iterable) where
    query_failed : ℕ → Action MariaDb ExpectedRows
    unfolding error_text
    query_failed h = do
      message ← gets (λ db. error_text (text "Unknown MySQL error") (c.error db.env h))
      pure (err (Exception.execute_error message))

    query_result : ℕ → Option ℕ → Action MariaDb ExpectedRows
    unfolding call query_failed
    query_result h (some res) = do
      let rows = step_results c it (some res)
      call (frees_result res)
      pure rows
    query_result h none = do
      count ← gets (λ db. c.field_count db.env h)
      if count == 0 then pure (ok []) else query_failed h

    query_on : Option ℕ → Text → Action MariaDb ExpectedRows
    unfolding call query_failed query_result log_warnings
    query_on none sql = pure (err (Exception.execute_error (text "Database not connected")))
    query_on (some h) sql = do
      good ← gets (λ db. c.real_query db.env h sql)
      call (queries h sql)
      if not good then query_failed h else do
        log_warnings h
        res ← gets (λ db. c.store_result db.env h)
        call (stores_result h)
        query_result h res

    -- `MariaDB::Query`
    pub query : Text → Action MariaDb ExpectedRows
    unfolding query_on
    query sql = do
      write_log debug (text "Executing query: " ∷ sql ∷ [])
      conn ← gets usable
      query_on conn sql

  silent_on : Option ℕ → Text → Action MariaDb Bool
  unfolding call error_text log_warnings
  silent_on none sql = pure false
  silent_on (some h) sql = do
    good ← gets (λ db. c.real_query db.env h sql)
    call (queries h sql)
    if good then (do log_warnings h; pure true) else do
      message ← gets (λ db. error_text (text "Unknown MySQL error") (c.error db.env h))
      write_log error (text "MariaDB SilentQuery error: " ∷ message ∷ [])
      pure false

  -- `MariaDB::DoSilentQuery` and `SilentQuery`
  unfoldable pub do_silent_query : Text → Action MariaDb Bool
  unfolding silent_on
  do_silent_query sql = do
    write_log debug (text "Executing silent query: " ∷ sql ∷ [])
    conn ← gets usable
    silent_on conn sql

  pub silent_query : Text → Action MariaDb Bool
  unfolding do_silent_query
  silent_query sql = do_silent_query sql
