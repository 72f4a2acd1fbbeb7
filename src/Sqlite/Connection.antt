-- ===== src/Sqlite/Connection.antt =====
-- lib/optional/StormByte/database/sqlite/sqlite3.hxx and sqlite3.cxx. The lifecycle hooks that a derived
-- class may override, `DoPreConnect` and `DoPostConnect`, are parameters.
pub mod Lifecycle
pub mod Quiet
pub mod Accounts
pub mod Handles
pub mod Release
pub mod Moves
pub mod Registry
pub mod Memory
pub mod Queries
pub mod Transactions
use storm_byte_database.Prelude.{
  ℕ, ◌+◌, ◌-◌, Text, text, Bool, true, false, not, Option, none, some, List, [], ◌∷◌, is_some, ◌==◌,
  ltb, Action, pure, gets, modify, when, ◌>>=◌, ◌>>◌, if◌then◌else◌,
}
use storm_byte_database.Prelude.Words.{c_string}
use storm_byte_database.Exception.{Exception, ok, err}
use storm_byte_database.Rows.{ExpectedRows, Iterable}
use storm_byte_database.Database.{
  Db, create_db, Backend, IsolationLevel, Level, low_level, debug, error, write_log, disconnect,
}
use storm_byte_database.Sqlite.Client.{
  Call, initializes, shuts_down, frees_message, opens, closes, sets_busy_timeout, prepares,
  executes, finalizes, Client, Env,
}
use storm_byte_database.Sqlite.Fetch.{step_results}
use storm_byte_database.Sqlite.Statement.{Stmt, create, virtuals}
use storm_byte_database.Sqlite.Members.{
  Own, Sqlite, create_sqlite, create_in_memory, own_moved_from, call, set_database, set_refcount,
}
use storm_byte_database.Sqlite.Query.{
  not_connected, run_prepared, prepare_failed, query, report, do_silent_query, silent_query,
  enable_foreign_keys,
}

-- `if (--g_sqlite_refcount == 0) sqlite3_shutdown();`
pub release_library : Action Sqlite (Unit {0})
unfolding call set_refcount
release_library = do
  n ← gets (λ db. db.env.refcount - 1)
  set_refcount n
  when (n == 0) (call shuts_down)

-- `if (m_database) { sqlite3_close(m_database); m_database = nullptr; }`
close_handle : Option ℕ → Action Sqlite (Unit {0})
unfolding call set_database
close_handle none = pure tt
close_handle (some h) = do call (closes h); set_database none

-- The destructor of a statement.
pub destroy_stmt : Stmt → Action Sqlite (Unit {0})
unfolding call
destroy_stmt p = elim p.handle [ none ↦ pure tt | some h ↦ call (finalizes (some h)) ]

destroy_all : List (Text × Stmt) → Action Sqlite (Unit {0})
destroy_all [] = pure tt
destroy_all ((name, p) ∷ m) = destroy_stmt p >> destroy_all m

-- `m_prepared_stmts.clear()`
pub clear_stmts : Action Sqlite (Unit {0})
unfolding destroy_all
clear_stmts = do
  m ← gets (λ db. db.prepared_stmts)
  destroy_all m
  modify (λ db. record db { prepared_stmts = [] })

-- `SQLite3::DoPreDisconnect`, `DoDisconnect` and `DoPostDisconnect`
pub do_pre_disconnect : Action Sqlite (Unit {0})
do_pre_disconnect db = when (is_some db.own.database) clear_stmts db

pub do_disconnect : Action Sqlite (Unit {0})
unfolding close_handle
do_disconnect db = close_handle db.own.database db

pub do_post_disconnect : Action Sqlite (Unit {0})
do_post_disconnect db = when (ltb 0 db.env.refcount) release_library db

-- The statement of `SQLite3::DoBeginTransaction` for a level.
pub begin_sql : IsolationLevel → Text
begin_sql IsolationLevel.read_uncommitted = text "BEGIN DEFERRED;"
begin_sql IsolationLevel.read_committed = text "BEGIN DEFERRED;"
begin_sql IsolationLevel.default = text "BEGIN DEFERRED;"
begin_sql IsolationLevel.repeatable_read = text "BEGIN IMMEDIATE;"
begin_sql IsolationLevel.serializable = text "BEGIN EXCLUSIVE;"

module _ (c : Client) where
  -- The first locked block of `DoConnect`: whether the library is initialised.
  acquire_library : Action Sqlite Bool
  unfolding call set_refcount
  acquire_library = do
    n ← gets (λ db. db.env.refcount)
    answer ← gets (λ db. c.initialize db.env.calls)
    when (n == 0) (call initializes)
    let ready = if n == 0 then answer else true
    if ready then set_refcount (n + 1) else write_log error (text "sqlite3_initialize failed" ∷ [])
    pure ready

  -- `m_database ? sqlite3_errmsg(m_database) : "unknown"`
  open_error : List Call → Option ℕ → Text
  open_error calls none = text "unknown"
  open_error calls (some h) = c.errmsg calls (some h)

  opened_well : Option ℕ → Action Sqlite Bool
  unfolding call
  opened_well handle = do
    call (sets_busy_timeout handle 30000)
    write_log low_level (text "SQLite3::DoConnect leave (ok)" ∷ [])
    pure true

  open_failed : Option ℕ → Action Sqlite Bool
  unfolding close_handle release_library open_error
  open_failed handle = do
    message ← gets (λ db. open_error db.env.calls handle)
    write_log error (text "sqlite3_open failed: " ∷ message ∷ [])
    close_handle handle
    release_library
    pure false

  -- `sqlite3_open` and what follows it.
  open_database : Action Sqlite Bool
  unfolding call set_database opened_well open_failed
  open_database = do
    file ← gets (λ db. c_string db.own.file)
    (opened, handle) ← gets (λ db. c.open_db db.env.calls file)
    call (opens file)
    set_database handle
    if opened then opened_well handle else open_failed handle

  connect_new : Action Sqlite Bool
  unfolding acquire_library open_database
  connect_new = do ready ← acquire_library; if ready then open_database else pure false

  -- `SQLite3::DoConnect`
  pub do_connect : Action Sqlite Bool
  unfolding connect_new
  do_connect = do
    write_log low_level (text "SQLite3::DoConnect enter" ∷ [])
    connected ← gets (λ db. db.connected)
    if connected then pure false else connect_new

  unfoldable pub created : Option ℕ → Stmt → Action Sqlite (Option Stmt)
  created none p = do write_log error (text "Failed to prepare statement" ∷ []); pure none
  created (some h) p = pure (some p)

  -- `SQLite3::CreatePreparedSTMT`
  unfoldable pub create_stmt : Text → Text → Action Sqlite (Option Stmt)
  unfolding call created
  create_stmt name sql = do
    database ← gets (λ db. db.own.database)
    (_, stmt) ← gets (λ db. c.prepare db.env.calls database (c_string sql))
    call (prepares database (c_string sql))
    created stmt (record (create name sql) { handle = stmt })

  pub do_begin : IsolationLevel → Action Sqlite (Unit {0})
  unfolding begin_sql
  do_begin level = do do_silent_query c (begin_sql level); pure tt

  module _ (pre_connect post_connect : Action Sqlite (Unit {0})) (it : Iterable) where
    -- The virtual methods of `SQLite3`.
    unfoldable pub backend : Backend Stmt Own Env
    backend = record {
      do_pre_connect = pre_connect;
      do_connect = do_connect;
      do_post_connect = post_connect;
      do_pre_disconnect = do_pre_disconnect;
      do_disconnect = do_disconnect;
      do_post_disconnect = do_post_disconnect;
      create_stmt = create_stmt;
      destroy_stmt = destroy_stmt;
      do_begin = do_begin;
      do_silent_query = do_silent_query c;
      query = query c it;
      silent_query = silent_query c;
      statement = virtuals c it;
    }

    -- `SQLite3::~SQLite3`, and the destructor of the members.
    pub destroy : Action Sqlite (Unit {0})
    unfolding backend
    destroy = do write_log low_level (text "SQLite3 dtor" ∷ []); disconnect backend; clear_stmts
