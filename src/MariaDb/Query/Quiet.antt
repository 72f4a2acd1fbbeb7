-- ===== src/MariaDb/Query/Quiet.antt =====
-- Queries on MariaDB give out and close no handle.
use storm_byte_database.Prelude.{
  ℕ, zero, suc, ◌≡◌, refl, ◌∙◌, Option, none, some, List, [], ◌∷◌, Text, text, arith,
}
use storm_byte_database.Rows.{Iterable}
use storm_byte_database.Database.{Level, debug, write_log}
use storm_byte_database.MariaDb.Client.{queries, stores_result, Client}
use storm_byte_database.MariaDb.Client.Counts.{closed, given, stmts_given, stmts_closed}
use storm_byte_database.MariaDb.Members.{MariaDb, call}
use storm_byte_database.MariaDb.Query.{
  usable, log_warning, log_warning_rows, log_result, show_warnings, log_warnings, query_failed,
  query_result, query_on, query, silent_on, do_silent_query, silent_query,
}

module _ (c : Client) where
  -- The connection is as it was, and none was given out or closed.
  abbrev pub Calm : MariaDb → MariaDb → Type 0
  Calm db db' =
      (db'.own ≡ db.own)
      × (db'.connected ≡ db.connected)
      × (given c db'.env ≡ given c db.env)
      × (closed db'.env ≡ closed db.env)

  pub Calm-then : (db d db' : MariaDb) → Calm db d → Calm d db' → Calm db db'
  Calm-then db d db' (x, y, z, w) (x', y', z', w') = (x' ∙ x, y' ∙ y, z' ∙ z, w' ∙ w)

  -- So are the registry and the statements.
  abbrev pub Quiet : MariaDb → MariaDb → Type 0
  Quiet db db' =
      Calm db db'
      × (db'.prepared_stmts ≡ db.prepared_stmts)
      × (stmts_given c db'.env ≡ stmts_given c db.env)
      × (stmts_closed db'.env ≡ stmts_closed db.env)

  pub Quiet-then : (db d db' : MariaDb) → Quiet db d → Quiet d db' → Quiet db db'
  Quiet-then db d db' (k, x, y, z) (k', x', y', z') =
      (Calm-then db d db' k k', x' ∙ x, y' ∙ y, z' ∙ z)

  pub write_log-Quiet :
      (l : Level) (pieces : List Text) (db : MariaDb) → Quiet db (write_log l pieces db).1
  unfolding write_log
  write_log-Quiet l pieces db = ground arith

  log_warning-Quiet : (res r : ℕ) (db : MariaDb) → Quiet db (log_warning c res r db).1
  unfolding log_warning given closed stmts_given stmts_closed write_log
  log_warning-Quiet res r db = ground arith

  log_warning_rows-Quiet : (res r n : ℕ) (db : MariaDb) → Quiet db (log_warning_rows c res r n db).1
  unfolding log_warning_rows
  log_warning_rows-Quiet res r zero db = ((refl, refl, refl, refl), refl, refl, refl)
  log_warning_rows-Quiet res r (suc n) db =
      let d : MariaDb = (log_warning c res r db).1 in
      Quiet-then db d (log_warning_rows c res (suc r) n d).1 (log_warning-Quiet res r db)
        (log_warning_rows-Quiet res (suc r) n d)

  log_result-Quiet : (o : Option ℕ) (db : MariaDb) → Quiet db (log_result c o db).1
  unfolding log_result given closed stmts_given stmts_closed
  log_result-Quiet none db = ((refl, refl, refl, refl), refl, refl, refl)
  log_result-Quiet (some res) db = log_warning_rows-Quiet res 0 (c.num_rows res) db

  log_warnings-Quiet : (h : ℕ) (db : MariaDb) → Quiet db (log_warnings c h db).1
  unfolding log_warnings show_warnings given closed stmts_given stmts_closed
  log_warnings-Quiet h db =
      let asked : MariaDb = (call (queries h (text "SHOW WARNINGS")) db).1 in
      let stored : MariaDb = (call (stores_result h) asked).1 in
      ground (arith, log_result-Quiet (c.store_result asked.env h) stored)

  silent_on-Quiet : (o : Option ℕ) (sql : Text) (db : MariaDb) → Quiet db (silent_on c o sql db).1
  unfolding silent_on given closed stmts_given stmts_closed write_log
  silent_on-Quiet none sql db = ((refl, refl, refl, refl), refl, refl, refl)
  silent_on-Quiet (some h) sql db = ground (arith, log_warnings-Quiet h (call (queries h sql) db).1)

  pub do_silent_query-Quiet : (sql : Text) (db : MariaDb) → Quiet db (do_silent_query c sql db).1
  unfolding do_silent_query
  do_silent_query-Quiet sql db =
      let line : List Text = text "Executing silent query: " ∷ sql ∷ [] in
      let d : MariaDb = (write_log debug line db).1 in
      Quiet-then db d (silent_on c (usable c d) sql d).1 (write_log-Quiet debug line db)
        (silent_on-Quiet (usable c d) sql d)

  pub silent_query-Quiet : (sql : Text) (db : MariaDb) → Quiet db (silent_query c sql db).1
  unfolding silent_query
  silent_query-Quiet sql db = do_silent_query-Quiet sql db

  module _ (it : Iterable) where
    query_result-Quiet :
        (h : ℕ) (o : Option ℕ) (db : MariaDb) → Quiet db (query_result c it h o db).1
    unfolding query_result query_failed given closed stmts_given stmts_closed
    query_result-Quiet h none db = ground arith
    query_result-Quiet h (some res) db = ((refl, refl, refl, refl), refl, refl, refl)

    query_on-Quiet :
        (o : Option ℕ) (sql : Text) (db : MariaDb) → Quiet db (query_on c it o sql db).1
    unfolding query_on query_failed given closed stmts_given stmts_closed
    query_on-Quiet none sql db = ((refl, refl, refl, refl), refl, refl, refl)
    query_on-Quiet (some h) sql db =
        let asked : MariaDb = (call (queries h sql) db).1 in
        let logged : MariaDb = (log_warnings c h asked).1 in
        let stored : MariaDb = (call (stores_result h) logged).1 in
        ground (
          arith,
          log_warnings-Quiet h asked,
          query_result-Quiet h (c.store_result logged.env h) stored,
        )

    pub query-Quiet : (sql : Text) (db : MariaDb) → Quiet db (query c it sql db).1
    unfolding query
    query-Quiet sql db =
        let line : List Text = text "Executing query: " ∷ sql ∷ [] in
        let d : MariaDb = (write_log debug line db).1 in
        Quiet-then db d (query_on c it (usable c d) sql d).1 (write_log-Quiet debug line db)
          (query_on-Quiet (usable c d) sql d)
