-- ===== src/Sqlite/Examples.antt =====
-- The SQLite backend at work.
mod Objects
mod Lives
mod Programs
mod Sessions
use storm_byte_database.Prelude.{
  ◌+◌, ℕ, ◌≡◌, refl, Text, text, text_eq, lookup, Bool, true, false, ◌&&◌, ◌||◌, Option, none, some,
  List, [], ◌∷◌, map, Action, pure, arith, if◌then◌else◌,
}
use storm_byte_database.Prelude.Int.{pos}
use storm_byte_database.Value.{Value, nan}
use storm_byte_database.Columns.{HasColumns}
use storm_byte_database.Rows.{vector_rows}
use storm_byte_database.Statement.{execute}
use storm_byte_database.Statement.Contract.{execute-Binds}
use storm_byte_database.Database.{
  Db, Backend, Level, debug, write_log, do_prepare_stmt, execute_stmt, connect, disconnect,
}
use storm_byte_database.Database.{moved_from}
use storm_byte_database.Sqlite.Members.{own_moved_from}
use storm_byte_database.Sqlite.Connection.Moves.{closed, moved_closes_twice}
use storm_byte_database.Database.Lifecycle.{Keeps, Agrees, connect-Agrees, disconnect-Agrees}
use storm_byte_database.Database.Registry.{do_prepare_stmt-lookup, preparing, execute_stmt-Binds}
use storm_byte_database.Sqlite.Client.{
  Call, steps, StepCode, row, done, ColumnType, Client, FiniteResults, Env, finalized, shuts_down,
}
use storm_byte_database.Sqlite.Fetch.{name_or_empty, column_value, fetch_row}
use storm_byte_database.Sqlite.Fetch.Steps.{Steps}
use storm_byte_database.Sqlite.Statement.{Stmt, render, virtuals}
use storm_byte_database.Sqlite.Statement.Binding.{bound, IsPrepared, virtuals-Binds}
use storm_byte_database.Sqlite.Members.{Own, Sqlite}
use storm_byte_database.Sqlite.Query.{query}
use storm_byte_database.Sqlite.Connection.{do_connect, backend, destroy}
use storm_byte_database.Sqlite.Connection.Lifecycle.{owns, Opens, do_connect-Opens}
use storm_byte_database.Sqlite.Connection.Queries.{query-finalized}
use storm_byte_database.Sqlite.Connection.Registry.{backend-Creates}
use storm_byte_database.Sqlite.Connection.Release.{backend-Connects, destroy_shuts_down}
use storm_byte_database.Sqlite.Examples.Objects.{
  next, left, one_row, hook, hook-Keeps, sqlite, prepared, object, holder, stranger, arguments,
}

execute-Binds_example :
    (t : Stmt × Env) × (bound t ≡ map render arguments)
    × ((execute (virtuals one_row vector_rows) arguments (prepared, holder.env)).0
        ≡ ((virtuals one_row vector_rows).do_execute t).0)
    × (bound (execute (virtuals one_row vector_rows) arguments (prepared, holder.env)).1 ≡ [])
    × IsPrepared (execute (virtuals one_row vector_rows) arguments (prepared, holder.env)).1
execute-Binds_example =
    execute-Binds (virtuals-Binds one_row vector_rows) arguments (prepared, holder.env) (2, refl)

registered : lookup (text "put") holder.prepared_stmts ≡ some prepared
unfolding lookup text text_eq
registered = refl

execute_stmt-Binds_example :
    let (result, db') = execute_stmt sqlite (text "put") arguments holder in
    (t : Stmt × Env) × (bound t ≡ map render arguments)
    × (result ≡ (sqlite.statement.do_execute t).0)
    × ((q : Stmt) × (bound (q, db'.env) ≡ [])
        × ((other : Text)
            → lookup other db'.prepared_stmts ≡ (
                if text_eq (text "put") other then some q else lookup other holder.prepared_stmts)))
unfolding backend
execute_stmt-Binds_example =
    execute_stmt-Binds sqlite (text "put") arguments prepared holder
      (virtuals-Binds one_row vector_rows) registered (2, refl)

connect-Agrees_example :
    Agrees owns (connect sqlite stranger).1
    × ((connect sqlite stranger).1.connected ≡ ((connect sqlite stranger).0 || stranger.connected))
    × (((connect sqlite stranger).0 && stranger.connected) ≡ false)
connect-Agrees_example =
    connect-Agrees
      (backend-Connects one_row hook hook vector_rows (λ calls path e. refl) hook-Keeps hook-Keeps)
      stranger refl

do_connect-Opens_example : Opens 1 stranger (do_connect one_row stranger)
do_connect-Opens_example = do_connect-Opens one_row stranger (λ calls path e. refl) refl refl

destroy_shuts_down_example :
    ((destroy one_row hook hook vector_rows stranger).1.env.refcount ≡ 0)
    × ((destroy one_row hook hook vector_rows stranger).1.env.calls ≡ shuts_down ∷ [])
destroy_shuts_down_example =
    destroy_shuts_down one_row hook hook vector_rows stranger refl refl refl

do_prepare_stmt-lookup_example :
    lookup
      (text "put")
      (do_prepare_stmt sqlite (text "put") (text "SELECT 1") holder).1.prepared_stmts
    ≡ (elim (lookup (text "put") holder.prepared_stmts) [
      | some p ↦ some p
      | none ↦
          if text_eq (text "put") (text "put")
          then (sqlite.create_stmt
              (text "put")
              (text "SELECT 1")
              (write_log debug (preparing (text "put") (text "SELECT 1")) holder).1).0
          else none
    ])
do_prepare_stmt-lookup_example =
    do_prepare_stmt-lookup (backend-Creates one_row hook hook vector_rows) (text "put")
      (text "SELECT 1") (text "put") holder

moved_closes_twice_example :
    let old = moved_from own_moved_from holder in
    let first = (destroy one_row hook hook vector_rows holder).1 in
    let second = (destroy one_row hook hook vector_rows (record old { env = first.env })).1 in
    closed 1 second.env.calls ≡ 2 + closed 1 holder.env.calls
moved_closes_twice_example = moved_closes_twice one_row hook hook vector_rows 1 holder refl
