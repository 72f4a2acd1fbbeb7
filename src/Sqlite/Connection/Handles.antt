-- ===== src/Sqlite/Connection/Handles.antt =====
-- The statement handles that SQLite gives a database object: connecting and disconnecting lose none.
pub mod Queries
pub mod Release
use storm_byte_database.Prelude.{
  ℕ, ◌+◌, ◌≡◌, refl, ap, Bool, true, false, inl, inr, Option, none, some, List, [], ◌∷◌, Text, text,
  arith, is_some, one_if, Action, Bool-cases, Option-cases,
}
use storm_byte_database.Prelude.Words.{c_string}
use storm_byte_database.Rows.{Iterable}
use storm_byte_database.Value.{Value}
use storm_byte_database.Statement.{execute}
use storm_byte_database.Database.{Level, low_level, debug, write_log, disconnect}
use storm_byte_database.Database.Lifetime.{Life, live_all}
use storm_byte_database.Database.Handles.{
  held, weight_made, Evens, Evens-further, Handles, write_log-Evens,
}
use storm_byte_database.Sqlite.Client.{opens, executes, prepares, finalized, Client, Env}
use storm_byte_database.Sqlite.Client.Counts.{prepared}
use storm_byte_database.Sqlite.Fetch.Idle.{step_results-Idle}
use storm_byte_database.Sqlite.Statement.{Stmt, create, virtuals}
use storm_byte_database.Sqlite.Statement.Idle.{execute-Leaves, execute-stmt}
use storm_byte_database.Sqlite.Members.{Sqlite, call, set_database}
use storm_byte_database.Sqlite.Query.{
  run_prepared, prepare_failed, query, report, do_silent_query, silent_query,
}
use storm_byte_database.Sqlite.Connection.{
  release_library, acquire_library, opened_well, open_failed, close_handle, open_database,
  connect_new, do_connect, clear_stmts, destroy_all, destroy_stmt, do_pre_disconnect, do_disconnect,
  do_post_disconnect, created, create_stmt, do_begin, begin_sql, backend, destroy,
}

-- The handle that a statement owns.
abbrev pub owned : Stmt → ℕ
owned p = one_if (is_some p.handle)

abbrev pub finalized_by : Env → ℕ
finalized_by e = finalized e.calls

module _ (c : Client) where
  abbrev pub prepared_by : Env → ℕ
  prepared_by e = prepared c e.calls

  abbrev pub Even : Sqlite → Sqlite → Type 0
  Even = Evens owned prepared_by finalized_by

  destroy_stmt-takes :
      (p : Stmt) (db : Sqlite)
      → let db' = (destroy_stmt p db).1 in
        (db'.prepared_stmts ≡ db.prepared_stmts)
        × (prepared_by db'.env + finalized_by db.env + owned p
            ≡ prepared_by db.env + finalized_by db'.env)
  unfolding destroy_stmt prepared finalized
  destroy_stmt-takes p db = elim (Option-cases p.handle) [
    | inl e ↦ rw (e, destroy_stmt) (refl, omega arith)
    | inr (h, e) ↦ rw (e, destroy_stmt) (refl, omega arith)
  ]

  destroy_all-takes :
      (m : List (Text × Stmt)) (db : Sqlite)
      → let db' = (destroy_all m db).1 in
        prepared_by db'.env + finalized_by db.env + held owned m
        ≡ prepared_by db.env + finalized_by db'.env
  unfolding destroy_all
  destroy_all-takes [] db = omega arith
  destroy_all-takes ((name, p) ∷ m) db =
      let (same, more) = destroy_stmt-takes p db in
      omega (arith, more, destroy_all-takes m (destroy_stmt p db).1)

  clear_stmts-Even : (db : Sqlite) → Even db (clear_stmts db).1
  unfolding clear_stmts
  clear_stmts-Even db = omega (arith, destroy_all-takes db.prepared_stmts db)

  do_pre_disconnect-Even : (db : Sqlite) → Even db (do_pre_disconnect db).1
  unfolding do_pre_disconnect
  do_pre_disconnect-Even db = ground (arith, clear_stmts-Even db)

  close_handle-Even : (o : Option ℕ) (db : Sqlite) → Even db (close_handle o db).1
  unfolding close_handle prepared finalized
  close_handle-Even none db = refl
  close_handle-Even (some h) db = refl

  do_disconnect-Even : (db : Sqlite) → Even db (do_disconnect db).1
  unfolding do_disconnect
  do_disconnect-Even db = close_handle-Even db.own.database db

  release_library-Even : (db : Sqlite) → Even db (release_library db).1
  unfolding release_library prepared finalized
  release_library-Even db = ground arith

  do_post_disconnect-Even : (db : Sqlite) → Even db (do_post_disconnect db).1
  unfolding do_post_disconnect
  do_post_disconnect-Even db = ground (arith, release_library-Even db)

  opened_well-Even : (h : Option ℕ) (db : Sqlite) → Even db (opened_well c h db).1
  unfolding opened_well write_log prepared finalized
  opened_well-Even h db = ground arith

  open_failed-Even : (h : Option ℕ) (db : Sqlite) → Even db (open_failed c h db).1
  unfolding open_failed release_library close_handle write_log prepared finalized
  open_failed-Even none db = ground arith
  open_failed-Even (some h) db = ground arith

  open_database-Even : (db : Sqlite) → Even db (open_database c db).1
  unfolding open_database prepared finalized
  open_database-Even db =
      let path : Text = c_string db.own.file in
      let h : Option ℕ = (c.open_db db.env.calls path).1 in
      let d : Sqlite = (set_database h (call (opens path) db).1).1 in
      ground (arith, opened_well-Even h d, open_failed-Even h d)

  acquire_library-Even : (db : Sqlite) → Even db (acquire_library c db).1
  unfolding acquire_library write_log prepared finalized
  acquire_library-Even db = ground arith

  connect_new-Even : (db : Sqlite) → Even db (connect_new c db).1
  unfolding connect_new
  connect_new-Even db =
      ground (arith, acquire_library-Even db, open_database-Even (acquire_library c db).1)

  do_connect-Even : (db : Sqlite) → Even db (do_connect c db).1
  unfolding do_connect
  do_connect-Even db =
      let line : List Text = text "SQLite3::DoConnect enter" ∷ [] in
      ground (
        arith,
        write_log-Evens owned prepared_by finalized_by low_level line db,
        connect_new-Even (write_log low_level line db).1,
      )
