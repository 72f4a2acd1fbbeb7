-- ===== src/MariaDb/Construct.antt =====
-- lib/optional/StormByte/database/mariadb/prepared_stmt.cxx: the two constructors of a statement, which prepare it
-- on a connection. Only the one that copies its arguments writes to the log; the other one is that of
-- `CreatePreparedSTMT`. The object stands for the client library and the logger that a statement shares with it.
pub mod Preparing
pub mod Idle
use storm_byte_database.Prelude.{
  ℕ, ◌≡◌, refl, ap, Option, none, some, [], ◌∷◌, Text, text, arith, Action, pure, gets, ◌>>=◌, ◌>>◌,
  if◌then◌else◌,
}
use storm_byte_database.Database.{error, write_log}
use storm_byte_database.MariaDb.Client.{inits_stmt, prepares, closes_stmt, Client}
use storm_byte_database.MariaDb.Statement.{Stmt, prepared_query}
use storm_byte_database.MariaDb.Members.{MariaDb, call, error_text}

abbrev constructed : ℕ → Text → Text → Option ℕ → Stmt
constructed conn name sql stmt = record {
  name = name;
  query = sql;
  conn = some conn;
  stmt = stmt;
  params = [];
}

module _ (c : Client) where
  -- From `mysql_stmt_init` on: the handle that the statement keeps.
  prepare_handle : Option ℕ → Text → Action MariaDb (Option ℕ)
  unfolding call
  prepare_handle none sql = pure none
  prepare_handle (some s) sql = do
    good ← gets (λ db. c.stmt_prepare db.env s (prepared_query sql))
    call (prepares s (prepared_query sql))
    if good then pure (some s) else do call (closes_stmt s); pure none

  prepare_handle-prepared_stmts :
      (o : Option ℕ) (sql : Text) (db : MariaDb)
      → (prepare_handle o sql db).1.prepared_stmts ≡ db.prepared_stmts
  unfolding prepare_handle
  prepare_handle-prepared_stmts none sql db = refl
  prepare_handle-prepared_stmts (some s) sql db = ground arith

  -- The constructor that moves its arguments.
  unfoldable pub construct : ℕ → Text → Text → Action MariaDb Stmt
  unfolding call prepare_handle
  construct conn name sql = do
    handle ← gets (λ db. c.stmt_init db.env conn)
    call (inits_stmt conn)
    stmt ← prepare_handle handle sql
    pure (constructed conn name sql stmt)

  -- The same with the lines that the constructor that copies its arguments logs.
  prepare_logged : Option ℕ → Text → Action MariaDb (Option ℕ)
  unfolding call error_text
  prepare_logged none sql = do
    write_log error (text "MariaDB: mysql_stmt_init returned null for query: " ∷ sql ∷ [])
    pure none
  prepare_logged (some s) sql = do
    good ← gets (λ db. c.stmt_prepare db.env s (prepared_query sql))
    call (prepares s (prepared_query sql))
    if good then pure (some s) else do
      message ← gets (λ db. error_text (text "<none>") (c.stmt_error db.env s))
      write_log error
          (text "MariaDB: mysql_stmt_prepare error: " ∷ message ∷ text " for query: " ∷ sql ∷ [])
      call (closes_stmt s)
      pure none

  -- The constructor that copies its arguments.
  unfoldable pub construct_logged : ℕ → Text → Text → Action MariaDb Stmt
  unfolding call prepare_logged
  construct_logged conn name sql = do
    handle ← gets (λ db. c.stmt_init db.env conn)
    call (inits_stmt conn)
    stmt ← prepare_logged handle sql
    pure (constructed conn name sql stmt)

  -- Neither constructor touches the registry.
  pub construct-prepared_stmts :
      (conn : ℕ) (name sql : Text) (db : MariaDb)
      → (construct conn name sql db).1.prepared_stmts ≡ db.prepared_stmts
  unfolding construct
  construct-prepared_stmts conn name sql db =
      prepare_handle-prepared_stmts (c.stmt_init db.env conn) sql (call (inits_stmt conn) db).1
