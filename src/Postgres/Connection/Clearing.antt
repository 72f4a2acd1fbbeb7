-- ===== src/Postgres/Connection/Clearing.antt =====
-- The results that libpq gives a database object: each is cleared, whatever the object is used for.
use storm_byte_database.Prelude.{
  ℕ, ◌+◌, ◌≡◌, refl, ap, Option, none, some, List, [], ◌∷◌, Text, text, arith, is_some, one_if,
  Action,
}
use storm_byte_database.Prelude.Words.{c_string}
use storm_byte_database.Trim.{trim_end}
use storm_byte_database.Rows.{Iterable}
use storm_byte_database.Database.{low_level, debug, write_log}
use storm_byte_database.Database.Lifetime.{Life, live_all}
use storm_byte_database.Database.Handles.{held, weight_made, Evens, Handles, write_log-Evens}
use storm_byte_database.Database.Handles.Lives.{live_all-Evens}
use storm_byte_database.Postgres.Client.{connects, executes, prepares, Client}
use storm_byte_database.Postgres.Client.Counts.{results_given, results_cleared}
use storm_byte_database.Postgres.Statement.{Stmt}
use storm_byte_database.Postgres.Statement.Clearing.{execute-Clears}
use storm_byte_database.Postgres.Members.{Postgres, call}
use storm_byte_database.Postgres.Query.{
  usable, query_result, query_on, query, silent_result, silent_on, do_silent_query, silent_query,
}
use storm_byte_database.Postgres.Connection.{
  conninfo, is_query_end, finish_conn, do_pre_disconnect, do_disconnect, connect_failed,
  connect_succeeded, connect_handle, connect_new, do_connect, created, create_on, create_stmt,
  begin_sql, do_begin, backend,
}

-- No result belongs to a statement.
abbrev pub weightless : Stmt → ℕ
weightless p = 0

held-weightless : (m : List (Text × Stmt)) → held weightless m ≡ 0
held-weightless [] = refl
held-weightless ((name, p) ∷ m) = omega (arith, held-weightless m)

module _ (c : Client) where
  -- A result for each clear.
  abbrev pub Even : Postgres → Postgres → Type 0
  Even = Evens weightless (results_given c) results_cleared

  -- The result that was given out before is cleared.
  abbrev Cleared : Option ℕ → Postgres → Postgres → Type 0
  Cleared res db db' =
      (db'.prepared_stmts ≡ db.prepared_stmts)
      × (results_given c db'.env ≡ results_given c db.env)
      × (results_cleared db'.env ≡ results_cleared db.env + one_if (is_some res))

  silent_result-Cleared :
      (conn : ℕ) (res : Option ℕ) (db : Postgres) → Cleared res db (silent_result c conn res db).1
  unfolding silent_result write_log results_given results_cleared
  silent_result-Cleared conn none db = (refl, refl, omega arith)
  silent_result-Cleared conn (some r) db = ground arith

  silent_on-Even : (o : Option ℕ) (sql : Text) (db : Postgres) → Even db (silent_on c o sql db).1
  unfolding silent_on results_given results_cleared
  silent_on-Even none sql db = refl
  silent_on-Even (some h) sql db =
      let res : Option ℕ = c.exec db.env h (c_string sql) in
      let (m, g, t) = silent_result-Cleared h res (call (executes h (c_string sql)) db).1 in
      omega (arith, ap (held weightless) m, g, t)

  do_silent_query-Even : (sql : Text) (db : Postgres) → Even db (do_silent_query c sql db).1
  unfolding do_silent_query
  do_silent_query-Even sql db =
      let line : List Text = text "Executing silent query: " ∷ sql ∷ [] in
      let d : Postgres = (write_log debug line db).1 in
      omega (
        arith,
        write_log-Evens weightless (results_given c) results_cleared debug line db,
        silent_on-Even (usable c d) sql d,
      )

  silent_query-Even : (sql : Text) (db : Postgres) → Even db (silent_query c sql db).1
  unfolding silent_query
  silent_query-Even sql db = do_silent_query-Even sql db

  created-Cleared :
      (conn : ℕ) (res : Option ℕ) (name sql : Text) (db : Postgres)
      → let (made, db') = created c conn res name sql db in
        Cleared res db db' × (weight_made weightless made ≡ 0)
  unfolding created write_log results_given results_cleared
  created-Cleared conn none name sql db = ground arith
  created-Cleared conn (some r) name sql db = ground arith

  create_on-clears :
      (o : Option ℕ) (name sql : Text) (db : Postgres)
      → let (made, db') = create_on c o name sql db in
        (db'.prepared_stmts ≡ db.prepared_stmts)
        × (results_given c db'.env + results_cleared db.env
            ≡ results_given c db.env + results_cleared db'.env + weight_made weightless made)
  unfolding create_on results_given results_cleared
  create_on-clears none name sql db = (refl, omega arith)
  create_on-clears (some h) name sql db =
      let trimmed : Text = c_string (trim_end is_query_end sql) in
      let ((m, g, t), w) =
        created-Cleared h (c.prepare db.env h (c_string name) trimmed) name sql
          (call (prepares h (c_string name) trimmed) db).1 in
      (m, omega (arith, g, t, w))

  finish_conn-Even : (o : Option ℕ) (db : Postgres) → Even db (finish_conn o db).1
  unfolding finish_conn results_given results_cleared
  finish_conn-Even none db = refl
  finish_conn-Even (some h) db = refl

  do_pre_disconnect-Even : (db : Postgres) → Even db (do_pre_disconnect db).1
  unfolding do_pre_disconnect
  do_pre_disconnect-Even db = omega (arith, held-weightless db.prepared_stmts)

  connect_handle-Even : (o : Option ℕ) (db : Postgres) → Even db (connect_handle c o db).1
  unfolding connect_handle connect_failed connect_succeeded write_log results_given results_cleared
  connect_handle-Even none db = ground arith
  connect_handle-Even (some h) db = ground arith

  connect_new-Even : (db : Postgres) → Even db (connect_new c db).1
  unfolding connect_new results_given results_cleared
  connect_new-Even db =
      let info : Text = c_string (conninfo db) in
      connect_handle-Even (c.connectdb db.env info) (call (connects info) db).1

  do_connect-Even : (db : Postgres) → Even db (do_connect c db).1
  unfolding do_connect
  do_connect-Even db =
      let line : List Text = text "Postgres::DoConnect enter" ∷ [] in
      ground (
        arith,
        write_log-Evens weightless (results_given c) results_cleared low_level line db,
        connect_new-Even (write_log low_level line db).1,
      )

  module _ (it : Iterable) where
    query_result-Cleared :
        (conn : ℕ) (res : Option ℕ) (db : Postgres)
        → Cleared res db (query_result c it conn res db).1
    unfolding query_result results_given results_cleared
    query_result-Cleared conn none db = (refl, refl, omega arith)
    query_result-Cleared conn (some r) db = ground arith

    query_on-Even : (o : Option ℕ) (sql : Text) (db : Postgres) → Even db (query_on c it o sql db).1
    unfolding query_on results_given results_cleared
    query_on-Even none sql db = refl
    query_on-Even (some h) sql db =
        let res : Option ℕ = c.exec db.env h (c_string sql) in
        let (m, g, t) = query_result-Cleared h res (call (executes h (c_string sql)) db).1 in
        omega (arith, ap (held weightless) m, g, t)

    query-Even : (sql : Text) (db : Postgres) → Even db (query c it sql db).1
    unfolding query
    query-Even sql db =
        let line : List Text = text "Executing query: " ∷ sql ∷ [] in
        let d : Postgres = (write_log debug line db).1 in
        omega (
          arith,
          write_log-Evens weightless (results_given c) results_cleared debug line db,
          query_on-Even (usable c d) sql d,
        )

    module _ (pre post closing : Action Postgres (Unit {0})) where
      -- The contract of handles, for results, if the hooks leave them alone.
      backend-Handles :
          ((db : Postgres) → Even db (pre db).1)
          → ((db : Postgres) → Even db (post db).1)
          → ((db : Postgres) → Even db (closing db).1)
          → Handles weightless (results_given c) results_cleared (backend c pre post closing it)
      unfolding backend create_stmt do_begin do_disconnect
      backend-Handles kpre kpost kclosing = record {
        pre_connects = kpre;
        joins = do_connect-Even;
        post_connects = kpost;
        pre_disconnects = do_pre_disconnect-Even;
        leaves = λ db. finish_conn-Even db.own.conn db;
        post_disconnects = kclosing;
        creates = λ name sql db. create_on-clears db.own.conn name sql db;
        destroys = λ p db. (refl, omega arith);
        runs = λ args p calls. (refl, execute-Clears c it args p calls);
        starts = λ level db. do_silent_query-Even (begin_sql level) db;
        does = do_silent_query-Even;
        asks = query-Even;
        tells = silent_query-Even;
      }

      -- If the hooks leave results alone and as many results were cleared as libpq gave out so far, this is
      -- so again after connects, disconnects and uses of a PostgreSQL object in any order.
      pub life_clears :
          ((db : Postgres) → Even db (pre db).1)
          → ((db : Postgres) → Even db (post db).1)
          → ((db : Postgres) → Even db (closing db).1)
          → (ls : List Life) (db : Postgres) → results_given c db.env ≡ results_cleared db.env
          → let db' = live_all (backend c pre post closing it) ls db in
            results_given c db'.env ≡ results_cleared db'.env
      life_clears kpre kpost kclosing ls db e =
          let b = backend c pre post closing it in
          omega (
            arith,
            e,
            live_all-Evens weightless (results_given c) results_cleared
                (backend-Handles kpre kpost kclosing) ls db,
            held-weightless db.prepared_stmts,
            held-weightless (live_all b ls db).prepared_stmts,
          )
