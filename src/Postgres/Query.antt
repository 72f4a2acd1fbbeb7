-- ===== src/Postgres/Query.antt =====
-- lib/optional/StormByte/database/postgres/postgres.cxx: `Query` and `SilentQuery`.
use storm_byte_database.Prelude.{
  ℕ, Text, text, Bool, true, false, Option, none, some, [], ◌∷◌, Action, pure, gets, ◌>>=◌, ◌>>◌,
  if◌then◌else◌,
}
use storm_byte_database.Prelude.Words.{c_string}
use storm_byte_database.Exception.{Exception, err}
use storm_byte_database.Rows.{ExpectedRows, Iterable}
use storm_byte_database.Database.{debug, error, write_log}
use storm_byte_database.Postgres.Client.{executes, clears, Client}
use storm_byte_database.Postgres.Fetch.{step_results}
use storm_byte_database.Postgres.Statement.{error_text}
use storm_byte_database.Postgres.Members.{Postgres, call}

module _ (c : Client) where
  -- The connection that a query may use.
  abbrev pub usable : Postgres → Option ℕ
  usable db = if db.connected then db.own.conn else none

  module _ (it : Iterable) where
    -- From the result of `PQexec` on.
    unfoldable pub query_result : ℕ → Option ℕ → Action Postgres ExpectedRows
    unfolding call
    query_result conn none = pure (err (Exception.execute_error (text "Null PGresult")))
    query_result conn (some res) =
        if c.result_ok res
        then (do let rows = step_results c it (some res); call (clears res); pure rows)
        else do
          message ← gets (λ db. error_text c it (c.error_message db.env conn))
          call (clears res)
          pure (err (Exception.execute_error message))

    unfoldable pub query_on : Option ℕ → Text → Action Postgres ExpectedRows
    unfolding call query_result
    query_on none sql = pure (err (Exception.execute_error (text "Database not connected")))
    query_on (some conn) sql = do
      res ← gets (λ db. c.exec db.env conn (c_string sql))
      call (executes conn (c_string sql))
      query_result conn res

    -- `Postgres::Query`
    unfoldable pub query : Text → Action Postgres ExpectedRows
    unfolding query_on
    query sql = do
      write_log debug (text "Executing query: " ∷ sql ∷ [])
      conn ← gets usable
      query_on conn sql

  unfoldable pub silent_result : ℕ → Option ℕ → Action Postgres Bool
  unfolding call
  silent_result conn none = pure false
  silent_result conn (some res) = if c.result_ok res then (do call (clears res); pure true) else do
    message ← gets (λ db. c.error_message db.env conn)
    write_log error (
        text "Postgres SilentQuery error: "
        ∷ (elim message [ none ↦ text "Unknown error" | some m ↦ c_string m ])
        ∷ [])
    call (clears res)
    pure false

  unfoldable pub silent_on : Option ℕ → Text → Action Postgres Bool
  unfolding call silent_result
  silent_on none sql = pure false
  silent_on (some conn) sql = do
    res ← gets (λ db. c.exec db.env conn (c_string sql))
    call (executes conn (c_string sql))
    silent_result conn res

  -- `Postgres::DoSilentQuery` and `SilentQuery`
  unfoldable pub do_silent_query : Text → Action Postgres Bool
  unfolding silent_on
  do_silent_query sql = do
    write_log debug (text "Executing silent query: " ∷ sql ∷ [])
    conn ← gets usable
    silent_on conn sql

  unfoldable pub silent_query : Text → Action Postgres Bool
  unfolding do_silent_query
  silent_query sql = do_silent_query sql
