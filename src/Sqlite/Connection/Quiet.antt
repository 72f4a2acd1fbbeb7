-- ===== src/Sqlite/Connection/Quiet.antt =====
-- The operations of an SQLite object that neither open nor close a database.
use storm_byte_database.Prelude.{
  ℕ, ◌≡◌, refl, ◌∙◌, inl, inr, Option, none, some, List, [], ◌∷◌, Text, text, arith, Option-cases,
}
use storm_byte_database.Prelude.Words.{c_string}
use storm_byte_database.Rows.{Iterable}
use storm_byte_database.Database.{Level, debug, write_log}
use storm_byte_database.Sqlite.Client.{executes, prepares, Client}
use storm_byte_database.Sqlite.Client.Counts.{given, taken}
use storm_byte_database.Sqlite.Fetch.Idle.{step_results-Idle}
use storm_byte_database.Sqlite.Statement.{Stmt, create}
use storm_byte_database.Sqlite.Members.{Sqlite, call}
use storm_byte_database.Sqlite.Query.{run_prepared, prepare_failed, query, report, do_silent_query}
use storm_byte_database.Sqlite.Connection.{
  destroy_stmt, destroy_all, clear_stmts, do_pre_disconnect, release_library, do_post_disconnect,
  created, create_stmt,
}

module _ (c : Client) where
  abbrev pub Quiet : Sqlite → Sqlite → Type 0
  Quiet db db' =
      (db'.own ≡ db.own)
      × (db'.connected ≡ db.connected)
      × (given c db'.env.calls ≡ given c db.env.calls)
      × (taken db'.env.calls ≡ taken db.env.calls)

  pub Quiet-then : (db d db' : Sqlite) → Quiet db d → Quiet d db' → Quiet db db'
  Quiet-then db d db' (x, y, z, w) (x', y', z', w') = (x' ∙ x, y' ∙ y, z' ∙ z, w' ∙ w)

  pub write_log-Quiet :
      (l : Level) (pieces : List Text) (db : Sqlite) → Quiet db (write_log l pieces db).1
  unfolding write_log
  write_log-Quiet l pieces db = ground arith

  pub destroy_stmt-Quiet : (p : Stmt) (db : Sqlite) → Quiet db (destroy_stmt p db).1
  unfolding destroy_stmt given taken
  destroy_stmt-Quiet p db = elim (Option-cases p.handle) [
    | inl e ↦ rw (e, destroy_stmt) (refl, refl, refl, refl)
    | inr (h, e) ↦ rw (e, destroy_stmt) (refl, refl, refl, refl)
  ]

  destroy_all-Quiet : (m : List (Text × Stmt)) (db : Sqlite) → Quiet db (destroy_all m db).1
  unfolding destroy_all
  destroy_all-Quiet [] db = (refl, refl, refl, refl)
  destroy_all-Quiet ((name, p) ∷ m) db =
      let d : Sqlite = (destroy_stmt p db).1 in
      Quiet-then db d (destroy_all m d).1 (destroy_stmt-Quiet p db) (destroy_all-Quiet m d)

  pub do_pre_disconnect-Quiet : (db : Sqlite) → Quiet db (do_pre_disconnect db).1
  unfolding do_pre_disconnect clear_stmts
  do_pre_disconnect-Quiet db = ground (arith, destroy_all-Quiet db.prepared_stmts db)

  pub do_post_disconnect-Quiet : (db : Sqlite) → Quiet db (do_post_disconnect db).1
  unfolding do_post_disconnect release_library given taken
  do_post_disconnect-Quiet db = ground arith

  report-Quiet : (message : Option Text) (db : Sqlite) → Quiet db (report c message db).1
  unfolding report given taken write_log
  report-Quiet none db = (refl, refl, refl, refl)
  report-Quiet (some m) db = ground arith

  pub do_silent_query-Quiet : (sql : Text) (db : Sqlite) → Quiet db (do_silent_query c sql db).1
  unfolding do_silent_query given taken
  do_silent_query-Quiet sql db =
      let line : List Text = text "Executing silent query: " ∷ sql ∷ [] in
      let d : Sqlite = (write_log debug line db).1 in
      let asked : Sqlite = (call (executes d.own.database (c_string sql)) d).1 in
      ground (
        arith,
        write_log-Quiet debug line db,
        report-Quiet (c.exec d.env.calls d.own.database (c_string sql)).1 asked,
      )

  created-Quiet : (h : Option ℕ) (p : Stmt) (db : Sqlite) → Quiet db (created c h p db).1
  unfolding created write_log
  created-Quiet none p db = ground arith
  created-Quiet (some h) p db = (refl, refl, refl, refl)

  pub create_stmt-Quiet : (name sql : Text) (db : Sqlite) → Quiet db (create_stmt c name sql db).1
  unfolding create_stmt given taken
  create_stmt-Quiet name sql db =
      let (o, stmt) = c.prepare db.env.calls db.own.database (c_string sql) in
      created-Quiet stmt (record (create name sql) { handle = stmt })
        (call (prepares db.own.database (c_string sql)) db).1

  module _ (it : Iterable) where
    run_prepared-Quiet : (stmt : Option ℕ) (db : Sqlite) → Quiet db (run_prepared c it stmt db).1
    unfolding run_prepared given taken
    run_prepared-Quiet stmt db =
        let (g, t, _, _) = step_results-Idle c it stmt db.env.calls in (refl, refl, g, t)

    prepare_failed-Quiet :
        (h stmt : Option ℕ) (db : Sqlite) → Quiet db (prepare_failed c it h stmt db).1
    unfolding prepare_failed given taken
    prepare_failed-Quiet h none db = (refl, refl, refl, refl)
    prepare_failed-Quiet h (some s) db = (refl, refl, refl, refl)

    pub query-Quiet : (sql : Text) (db : Sqlite) → Quiet db (query c it sql db).1
    unfolding query given taken
    query-Quiet sql db =
        let line : List Text = text "Executing query: " ∷ sql ∷ [] in
        let d : Sqlite = (write_log debug line db).1 in
        let asked : Sqlite = (call (prepares d.own.database (c_string sql)) d).1 in
        let stmt : Option ℕ = (c.prepare d.env.calls d.own.database (c_string sql)).1 in
        ground (
          arith,
          write_log-Quiet debug line db,
          run_prepared-Quiet stmt asked,
          prepare_failed-Quiet d.own.database stmt asked,
        )
