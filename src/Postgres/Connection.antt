-- ===== src/Postgres/Connection.antt =====
-- lib/optional/StormByte/database/postgres/postgres.hxx and postgres.cxx. The lifecycle hooks of the base class, which
-- do nothing or are overridden in a derived class, are parameters where the backend leaves them open.
pub mod Lifecycle
pub mod Quiet
pub mod Accounts
pub mod Clearing
pub mod Results
pub mod Contracts
pub mod Memory
pub mod Preparing
pub mod Transactions
use storm_byte_database.Prelude.{
  ℕ, ◌+◌, Text, text, Bool, true, false, not, ◌&&◌, ◌||◌, Option, none, some, List, [], ◌∷◌, ◌++◌,
  is_some, is_empty, ◌==◌, Action, pure, gets, modify, when, ◌>>=◌, ◌>>◌, if◌then◌else◌,
}
use storm_byte_database.Prelude.Words.{c_string}
use storm_byte_database.Exception.{Exception, ok, err}
use storm_byte_database.Rows.{ExpectedRows, Iterable}
use storm_byte_database.Decimal.{is_space}
use storm_byte_database.Trim.{trim_end}
use storm_byte_database.Database.{
  Db, SslMode, create_db, Backend, IsolationLevel, Level, low_level, debug, notice, error,
  write_log, disconnect,
}
use storm_byte_database.Postgres.Client.{
  Call, connects, finishes, sets_notice_processor, executes, prepares, clears, Client,
}
use storm_byte_database.Postgres.Fetch.{step_results}
use storm_byte_database.Postgres.Statement.{Stmt, create, error_text, virtuals}
use storm_byte_database.Postgres.Members.{Own, Postgres, create_postgres, call, set_conn}
use storm_byte_database.Postgres.Query.{
  usable, query_result, query_on, query, silent_result, silent_on, do_silent_query, silent_query,
}

-- `if (!value.empty()) conninfo += key + "='" + value + "' ";`
setting : Text → Text → Text
setting key value = if is_empty value then [] else key ++ (text "='" ++ (value ++ text "' "))

ssl_setting : SslMode → Text
ssl_setting SslMode.disable = text "sslmode=disable "
ssl_setting SslMode.prefer = text "sslmode=prefer "
ssl_setting SslMode.require = text "sslmode=require "
ssl_setting SslMode.default = []

pub conninfo : Postgres → Text
unfolding setting ssl_setting
conninfo db =
    setting (text "host") db.own.host
    ++ (setting (text "user") db.own.user
        ++ (setting (text "password") db.own.password
            ++ (setting (text "dbname") db.own.dbname ++ ssl_setting db.ssl_mode)))

-- What `PostgresNoticeProcessor` takes off a message.
abbrev pub is_line_end : ℕ → Bool
is_line_end c = (c == 10) || (c == 13)

-- `PostgresNoticeProcessor`: a message that is only line ends is dropped.
pub notice_processor : Text → Action Postgres (Unit {0})
notice_processor message =
    let msg = trim_end is_line_end message in
    when (not (is_empty msg)) (write_log notice (msg ∷ []))

-- What `CreatePreparedSTMT` takes off a query.
abbrev pub is_query_end : ℕ → Bool
is_query_end c = (c == 59) || is_space c

-- `Postgres::DoPreDisconnect` and `DoDisconnect`. The destructor of a statement calls nothing.
pub do_pre_disconnect : Action Postgres (Unit {0})
do_pre_disconnect = modify (λ db. record db { prepared_stmts = [] })

finish_conn : Option ℕ → Action Postgres (Unit {0})
unfolding call set_conn
finish_conn none = pure tt
finish_conn (some h) = do call (finishes h); set_conn none

pub do_disconnect : Action Postgres (Unit {0})
unfolding finish_conn
do_disconnect db = finish_conn db.own.conn db

-- The text for a level in `Postgres::DoBeginTransaction`
pub begin_sql : IsolationLevel → Text
begin_sql IsolationLevel.read_uncommitted = text "BEGIN ISOLATION LEVEL READ UNCOMMITTED;"
begin_sql IsolationLevel.read_committed = text "BEGIN ISOLATION LEVEL READ COMMITTED;"
begin_sql IsolationLevel.repeatable_read = text "BEGIN ISOLATION LEVEL REPEATABLE READ;"
begin_sql IsolationLevel.serializable = text "BEGIN ISOLATION LEVEL SERIALIZABLE;"
begin_sql IsolationLevel.default = text "BEGIN;"

module _ (c : Client) where
  connect_failed : ℕ → Action Postgres Bool
  unfolding call set_conn
  connect_failed h = do
    message ← gets (λ db. c.error_message db.env h)
    write_log error (
        text "Postgres connection error: "
        ∷ (elim message [ none ↦ text "Unknown error" | some m ↦ c_string m ])
        ∷ [])
    call (finishes h)
    set_conn none
    pure false

  connect_succeeded : ℕ → Action Postgres Bool
  unfolding call set_conn
  connect_succeeded h = do
    set_conn (some h)
    logger ← gets (λ db. db.has_logger)
    when logger (call (sets_notice_processor h))
    write_log low_level (text "Postgres::DoConnect leave (ok)" ∷ [])
    pure true

  connect_handle : Option ℕ → Action Postgres Bool
  unfolding connect_failed connect_succeeded
  connect_handle none = do write_log error (text "PQconnectdb returned null" ∷ []); pure false
  connect_handle (some h) = do
    good ← gets (λ db. c.status_ok db.env h)
    if good then connect_succeeded h else connect_failed h

  pub connect_new : Action Postgres Bool
  unfolding call connect_handle
  connect_new = do
    info ← gets (λ db. c_string (conninfo db))
    handle ← gets (λ db. c.connectdb db.env info)
    call (connects info)
    connect_handle handle

  -- `Postgres::DoConnect`
  pub do_connect : Action Postgres Bool
  unfolding connect_new
  do_connect = do
    write_log low_level (text "Postgres::DoConnect enter" ∷ [])
    connected ← gets (λ db. db.connected)
    if connected then pure false else connect_new

  created : ℕ → Option ℕ → Text → Text → Action Postgres (Option Stmt)
  unfolding call
  created conn none name sql = do
    write_log error (text "PQprepare returned null for statement '" ∷ name ∷ text "'" ∷ [])
    pure none
  created conn (some res) name sql =
      if c.result_ok res
      then (do call (clears res); pure (some (record (create name sql) { conn = some conn })))
      else do
        write_log error (
            text "PQprepare error for statement '"
            ∷ name
            ∷ text "': "
            ∷ (elim (c.result_error res) [ none ↦ text "Unknown" | some m ↦ c_string m ])
            ∷ [])
        call (clears res)
        pure none

  create_on : Option ℕ → Text → Text → Action Postgres (Option Stmt)
  unfolding call created
  create_on none name sql = pure none
  create_on (some conn) name sql = do
    let trimmed = c_string (trim_end is_query_end sql)
    res ← gets (λ db. c.prepare db.env conn (c_string name) trimmed)
    call (prepares conn (c_string name) trimmed)
    created conn res name sql

  -- `Postgres::CreatePreparedSTMT`
  pub create_stmt : Text → Text → Action Postgres (Option Stmt)
  unfolding create_on
  create_stmt name sql db = create_on db.own.conn name sql db

  pub do_begin : IsolationLevel → Action Postgres (Unit {0})
  unfolding begin_sql
  do_begin level = do do_silent_query c (begin_sql level); pure tt

  module _ (pre_connect post_connect post_disconnect : Action Postgres (Unit {0}))
      (it : Iterable) where
    -- The virtual methods of `Postgres`.
    unfoldable pub backend : Backend Stmt Own (List Call)
    backend = record {
      do_pre_connect = pre_connect;
      do_connect = do_connect;
      do_post_connect = post_connect;
      do_pre_disconnect = do_pre_disconnect;
      do_disconnect = do_disconnect;
      do_post_disconnect = post_disconnect;
      create_stmt = create_stmt;
      destroy_stmt = λ p. pure tt;
      do_begin = do_begin;
      do_silent_query = do_silent_query c;
      query = query c it;
      silent_query = silent_query c;
      statement = virtuals c it;
    }

    -- `Postgres::~Postgres`
    pub destroy : Action Postgres (Unit {0})
    unfolding backend
    destroy = do write_log low_level (text "Postgres dtor" ∷ []); disconnect backend
