-- ===== src/MariaDb/Connection.antt =====
-- lib/optional/StormByte/database/mariadb/mariadb.cxx: the lifecycle of a connection, the making of
-- statements and the begin of transactions. Which of the two options for TLS the client
-- library has is a parameter, as are the lifecycle hooks that the backend leaves open.
pub mod Lifecycle
pub mod Contracts
pub mod Accounts
pub mod Handles
pub mod Memory
pub mod Transactions
use storm_byte_database.Prelude.{
  ℕ, zero, suc, ◌+◌, Text, text, Bool, true, false, not, ◌&&◌, ◌||◌, Option, none, some, List, [],
  ◌∷◌, ◌++◌, is_some, is_empty, ◌==◌, Action, pure, gets, modify, when, ◌>>=◌, ◌>>◌, if◌then◌else◌,
}
use storm_byte_database.Prelude.Words.{c_string}
use storm_byte_database.Exception.{Exception, ok, err}
use storm_byte_database.Rows.{ExpectedRows, Iterable}
use storm_byte_database.Database.{
  Db, SslMode, create_db, Backend, IsolationLevel, Level, low_level, debug, notice, error,
  write_log, disconnect,
}
use storm_byte_database.MariaDb.Client.{
  Call, SslOption, disabled, preferred, required, initializes, inits_stmt, sets_ssl, connects,
  closes, queries, stores_result, frees_result, fetches_row, prepares, closes_stmt, Client,
}
use storm_byte_database.MariaDb.Fetch.{step_results}
use storm_byte_database.MariaDb.Statement.{Stmt, prepared_query}
use storm_byte_database.MariaDb.Output.{virtuals}
use storm_byte_database.MariaDb.Members.{Own, MariaDb, call, set_conn, error_text}
use storm_byte_database.MariaDb.Construct.{construct}
use storm_byte_database.MariaDb.Query.{query, silent_query, do_silent_query}

-- The options that the headers of the client library define.
pub data SslSupport : Type 0 where
  ssl_mode ssl_enforce no_ssl : SslSupport

-- `ApplySslMode`; with `MYSQL_OPT_SSL_ENFORCE` the flag is shown as the mode that it stands for.
pub ssl_option : SslSupport → SslMode → Option SslOption
ssl_option SslSupport.ssl_mode SslMode.disable = some disabled
ssl_option SslSupport.ssl_mode SslMode.require = some required
ssl_option SslSupport.ssl_mode SslMode.prefer = some preferred
ssl_option SslSupport.ssl_mode SslMode.default = none
ssl_option SslSupport.ssl_enforce SslMode.disable = some disabled
ssl_option SslSupport.ssl_enforce SslMode.require = some required
ssl_option SslSupport.ssl_enforce SslMode.prefer = none
ssl_option SslSupport.ssl_enforce SslMode.default = none
ssl_option SslSupport.no_ssl mode = none

set_option : ℕ → Option SslOption → Action MariaDb (Unit {0})
unfolding call
set_option h none = pure tt
set_option h (some o) = call (sets_ssl h o)

-- `value.empty() ? nullptr : value.c_str()`
abbrev or_null : Text → Option Text
or_null s = if is_empty s then none else some (c_string s)

-- The destructor of a statement.
destroy_handle : Option ℕ → Action MariaDb (Unit {0})
unfolding call
destroy_handle none = pure tt
destroy_handle (some s) = call (closes_stmt s)

pub destroy_stmt : Stmt → Action MariaDb (Unit {0})
unfolding destroy_handle
destroy_stmt p = destroy_handle p.stmt

destroy_all : List (Text × Stmt) → Action MariaDb (Unit {0})
destroy_all [] = pure tt
destroy_all ((name, p) ∷ m) = destroy_stmt p >> destroy_all m

-- `MariaDB::DoPreDisconnect` and `DoDisconnect`
pub do_pre_disconnect : Action MariaDb (Unit {0})
unfolding destroy_all
do_pre_disconnect = do
  m ← gets (λ db. db.prepared_stmts)
  destroy_all m
  modify (λ db. record db { prepared_stmts = [] })

close_conn : Option ℕ → Action MariaDb (Unit {0})
unfolding call set_conn
close_conn none = pure tt
close_conn (some h) = do call (closes h); set_conn none

pub do_disconnect : Action MariaDb (Unit {0})
unfolding close_conn
do_disconnect db = close_conn db.own.conn db

-- The text for a level in `MariaDB::DoBeginTransaction`
pub isolation_sql : IsolationLevel → Option Text
isolation_sql IsolationLevel.read_uncommitted =
    some (text "SET TRANSACTION ISOLATION LEVEL READ UNCOMMITTED;")
isolation_sql IsolationLevel.read_committed =
    some (text "SET TRANSACTION ISOLATION LEVEL READ COMMITTED;")
isolation_sql IsolationLevel.repeatable_read =
    some (text "SET TRANSACTION ISOLATION LEVEL REPEATABLE READ;")
isolation_sql IsolationLevel.serializable =
    some (text "SET TRANSACTION ISOLATION LEVEL SERIALIZABLE;")
isolation_sql IsolationLevel.default = none

module _ (c : Client) (ssl : SslSupport) where
  connect_failed : ℕ → Action MariaDb Bool
  unfolding call set_conn error_text
  connect_failed h = do
    message ← gets (λ db. error_text (text "Unknown error") (c.error db.env h))
    write_log error (text "MariaDB connection error: " ∷ message ∷ [])
    call (closes h)
    set_conn none
    pure false

  connect_succeeded : ℕ → Action MariaDb Bool
  unfolding set_conn
  connect_succeeded h = do
    set_conn (some h)
    write_log low_level (text "MariaDB::DoConnect leave (ok)" ∷ [])
    pure true

  pub connect_handle : Option ℕ → Action MariaDb Bool
  unfolding call set_option ssl_option connect_failed connect_succeeded
  connect_handle none = do write_log error (text "mysql_init failed" ∷ []); pure false
  connect_handle (some h) = do
    mode ← gets (λ db. db.ssl_mode)
    set_option h (ssl_option ssl mode)
    own ← gets (λ db. db.own)
    good ← gets (λ db. c.real_connect db.env h)
    call (
        connects h (or_null own.host) (or_null own.user) (or_null own.password) (or_null own.dbname)
          own.port)
    if good then connect_succeeded h else connect_failed h

  connect_new : Action MariaDb Bool
  unfolding call connect_handle
  connect_new = do handle ← gets (λ db. c.init db.env); call initializes; connect_handle handle

  -- `MariaDB::DoConnect`
  pub do_connect : Action MariaDb Bool
  unfolding connect_new
  do_connect = do
    write_log low_level (text "MariaDB::DoConnect enter" ∷ [])
    connected ← gets (λ db. db.connected)
    if connected then pure false else connect_new

  create_on : Option ℕ → Text → Text → Action MariaDb (Option Stmt)
  create_on none name sql = pure none
  create_on (some h) name sql = do p ← construct c h name sql; pure (some p)

  -- `MariaDB::CreatePreparedSTMT`: the statement is made even if it could not be prepared.
  pub create_stmt : Text → Text → Action MariaDb (Option Stmt)
  unfolding create_on
  create_stmt name sql db = create_on db.own.conn name sql db

  set_isolation : Option Text → Action MariaDb (Unit {0})
  set_isolation none = pure tt
  set_isolation (some sql) = do do_silent_query c sql; pure tt

  pub do_begin : IsolationLevel → Action MariaDb (Unit {0})
  unfolding isolation_sql set_isolation
  do_begin level = do
    set_isolation (isolation_sql level)
    do_silent_query c (text "BEGIN;")
    pure tt

  module _ (pre_connect post_connect post_disconnect : Action MariaDb (Unit {0}))
      (it : Iterable) where
    -- The virtual methods of `MariaDB`.
    unfoldable pub backend : Backend Stmt Own (List Call)
    backend = record {
      do_pre_connect = pre_connect;
      do_connect = do_connect;
      do_post_connect = post_connect;
      do_pre_disconnect = do_pre_disconnect;
      do_disconnect = do_disconnect;
      do_post_disconnect = post_disconnect;
      create_stmt = create_stmt;
      destroy_stmt = destroy_stmt;
      do_begin = do_begin;
      do_silent_query = do_silent_query c;
      query = query c it;
      silent_query = silent_query c;
      statement = virtuals c it;
    }

    -- `MariaDB::~MariaDB`
    pub destroy : Action MariaDb (Unit {0})
    unfolding backend
    destroy = do write_log low_level (text "MariaDB dtor" ∷ []); disconnect backend
