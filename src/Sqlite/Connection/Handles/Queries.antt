-- ===== src/Sqlite/Connection/Handles/Queries.antt =====
-- Queries and the making of statements on SQLite lose no statement handle.
use storm_byte_database.Prelude.{
  ℕ, ◌+◌, ◌≡◌, refl, ap, Option, none, some, List, [], ◌∷◌, Text, text, arith, is_some, one_if,
}
use storm_byte_database.Prelude.Words.{c_string}
use storm_byte_database.Rows.{Iterable}
use storm_byte_database.Database.{debug, write_log}
use storm_byte_database.Database.Handles.{weight_made, write_log-Evens}
use storm_byte_database.Sqlite.Client.{executes, prepares, finalized, Client}
use storm_byte_database.Sqlite.Client.Counts.{prepared}
use storm_byte_database.Sqlite.Fetch.Idle.{step_results-Idle}
use storm_byte_database.Sqlite.Statement.{create}
use storm_byte_database.Sqlite.Members.{Sqlite, call}
use storm_byte_database.Sqlite.Query.{run_prepared, prepare_failed, query, report, do_silent_query}
use storm_byte_database.Sqlite.Connection.{created, create_stmt}
use storm_byte_database.Sqlite.Connection.Handles.{owned, finalized_by, prepared_by, Even}

module _ (c : Client) where
  report-Even : (message : Option Text) (db : Sqlite) → Even c db (report c message db).1
  unfolding report prepared finalized write_log
  report-Even none db = refl
  report-Even (some m) db = ground arith

  pub do_silent_query-Even : (sql : Text) (db : Sqlite) → Even c db (do_silent_query c sql db).1
  unfolding do_silent_query prepared finalized
  do_silent_query-Even sql db =
      let line : List Text = text "Executing silent query: " ∷ sql ∷ [] in
      let d : Sqlite = (write_log debug line db).1 in
      let asked : Sqlite = (call (executes d.own.database (c_string sql)) d).1 in
      ground (
        arith,
        write_log-Evens owned (prepared_by c) finalized_by debug line db,
        report-Even (c.exec d.env.calls d.own.database (c_string sql)).1 asked,
      )

  -- The handle of a statement that is made is that of the statement.
  created-gives :
      (h : Option ℕ) (name sql : Text) (db : Sqlite)
      → let (made, db') = created c h (record (create name sql) { handle = h }) db in
        (db'.prepared_stmts ≡ db.prepared_stmts)
        × (db'.env ≡ db.env)
        × (weight_made owned made ≡ one_if (is_some h))
  unfolding created create write_log
  created-gives none name sql db = ground arith
  created-gives (some h) name sql db = (refl, refl, refl)

  pub create_stmt-gives :
      (name sql : Text) (db : Sqlite)
      → let (made, db') = create_stmt c name sql db in
        (db'.prepared_stmts ≡ db.prepared_stmts)
        × (prepared_by c db'.env + finalized_by db.env
            ≡ prepared_by c db.env + finalized_by db'.env + weight_made owned made)
  unfolding create_stmt prepared finalized
  create_stmt-gives name sql db =
      let h : Option ℕ = (c.prepare db.env.calls db.own.database (c_string sql)).1 in
      let (same, out, w) =
        created-gives h name sql (call (prepares db.own.database (c_string sql)) db).1 in
      (same, omega (arith, ap (prepared_by c) out, ap finalized_by out, w))

  module _ (it : Iterable) where
    run_prepared-takes :
        (stmt : Option ℕ) (db : Sqlite)
        → let db' = (run_prepared c it stmt db).1 in
          (db'.prepared_stmts ≡ db.prepared_stmts)
          × (prepared_by c db'.env ≡ prepared_by c db.env)
          × (finalized_by db'.env ≡ finalized_by db.env + one_if (is_some stmt))
    unfolding run_prepared prepared finalized
    run_prepared-takes none db =
        let (_, _, p, f) = step_results-Idle c it none db.env.calls in (refl, p, omega (arith, f))
    run_prepared-takes (some s) db =
        let (_, _, p, f) = step_results-Idle c it (some s) db.env.calls in
        (refl, p, omega (arith, f))

    prepare_failed-takes :
        (h stmt : Option ℕ) (db : Sqlite)
        → let db' = (prepare_failed c it h stmt db).1 in
          (db'.prepared_stmts ≡ db.prepared_stmts)
          × (prepared_by c db'.env ≡ prepared_by c db.env)
          × (finalized_by db'.env ≡ finalized_by db.env + one_if (is_some stmt))
    unfolding prepare_failed prepared finalized
    prepare_failed-takes h none db = (refl, refl, omega arith)
    prepare_failed-takes h (some s) db = (refl, refl, omega arith)

    pub query-Even : (sql : Text) (db : Sqlite) → Even c db (query c it sql db).1
    unfolding query prepared finalized
    query-Even sql db =
        let line : List Text = text "Executing query: " ∷ sql ∷ [] in
        let d : Sqlite = (write_log debug line db).1 in
        let asked : Sqlite = (call (prepares d.own.database (c_string sql)) d).1 in
        let stmt : Option ℕ = (c.prepare d.env.calls d.own.database (c_string sql)).1 in
        ground (
          arith,
          write_log-Evens owned (prepared_by c) finalized_by debug line db,
          run_prepared-takes stmt asked,
          prepare_failed-takes d.own.database stmt asked,
        )
