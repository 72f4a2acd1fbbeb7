-- ===== src/Postgres/Connection/Quiet.antt =====
-- The operations of a PostgreSQL object that neither open nor close its connection.
use storm_byte_database.Prelude.{
  ℕ, ◌≡◌, refl, ◌∙◌, Option, none, some, List, [], ◌∷◌, Text, text, arith,
}
use storm_byte_database.Prelude.Words.{c_string}
use storm_byte_database.Trim.{trim_end}
use storm_byte_database.Rows.{Iterable}
use storm_byte_database.Database.{Level, debug, write_log}
use storm_byte_database.Postgres.Client.{executes, prepares, Client}
use storm_byte_database.Postgres.Members.{Postgres, call}
use storm_byte_database.Postgres.Query.{
  usable, query_result, query_on, query, silent_result, silent_on, do_silent_query,
}
use storm_byte_database.Postgres.Connection.{is_query_end, created, create_on, create_stmt}
use storm_byte_database.Postgres.Client.Counts.{given, finished}

module _ (c : Client) where
  abbrev pub Quiet : Postgres → Postgres → Type 0
  Quiet db db' =
      (db'.own ≡ db.own)
      × (db'.connected ≡ db.connected)
      × (given c db'.env ≡ given c db.env)
      × (finished db'.env ≡ finished db.env)

  pub Quiet-then : (db d db' : Postgres) → Quiet db d → Quiet d db' → Quiet db db'
  Quiet-then db d db' (x, y, z, w) (x', y', z', w') = (x' ∙ x, y' ∙ y, z' ∙ z, w' ∙ w)

  pub write_log-Quiet :
      (l : Level) (pieces : List Text) (db : Postgres) → Quiet db (write_log l pieces db).1
  unfolding write_log
  write_log-Quiet l pieces db = ground arith

  silent_result-Quiet :
      (conn : ℕ) (res : Option ℕ) (db : Postgres) → Quiet db (silent_result c conn res db).1
  unfolding silent_result write_log given finished
  silent_result-Quiet conn none db = (refl, refl, refl, refl)
  silent_result-Quiet conn (some r) db = ground arith

  silent_on-Quiet : (o : Option ℕ) (sql : Text) (db : Postgres) → Quiet db (silent_on c o sql db).1
  unfolding silent_on given finished
  silent_on-Quiet none sql db = (refl, refl, refl, refl)
  silent_on-Quiet (some h) sql db =
      silent_result-Quiet h (c.exec db.env h (c_string sql)) (call (executes h (c_string sql)) db).1

  pub do_silent_query-Quiet : (sql : Text) (db : Postgres) → Quiet db (do_silent_query c sql db).1
  unfolding do_silent_query
  do_silent_query-Quiet sql db =
      let line : List Text = text "Executing silent query: " ∷ sql ∷ [] in
      let d : Postgres = (write_log debug line db).1 in
      Quiet-then db d (silent_on c (usable c d) sql d).1 (write_log-Quiet debug line db)
        (silent_on-Quiet (usable c d) sql d)

  created-Quiet :
      (conn : ℕ) (res : Option ℕ) (name sql : Text) (db : Postgres)
      → Quiet db (created c conn res name sql db).1
  unfolding created write_log given finished
  created-Quiet conn none name sql db = ground arith
  created-Quiet conn (some r) name sql db = ground arith

  create_on-Quiet :
      (o : Option ℕ) (name sql : Text) (db : Postgres) → Quiet db (create_on c o name sql db).1
  unfolding create_on given finished
  create_on-Quiet none name sql db = (refl, refl, refl, refl)
  create_on-Quiet (some h) name sql db =
      let trimmed : Text = c_string (trim_end is_query_end sql) in
      created-Quiet h (c.prepare db.env h (c_string name) trimmed) name sql
        (call (prepares h (c_string name) trimmed) db).1

  pub create_stmt-Quiet : (name sql : Text) (db : Postgres) → Quiet db (create_stmt c name sql db).1
  unfolding create_stmt
  create_stmt-Quiet name sql db = create_on-Quiet db.own.conn name sql db

  module _ (it : Iterable) where
    query_result-Quiet :
        (conn : ℕ) (res : Option ℕ) (db : Postgres) → Quiet db (query_result c it conn res db).1
    unfolding query_result given finished
    query_result-Quiet conn none db = (refl, refl, refl, refl)
    query_result-Quiet conn (some r) db = ground arith

    query_on-Quiet :
        (o : Option ℕ) (sql : Text) (db : Postgres) → Quiet db (query_on c it o sql db).1
    unfolding query_on given finished
    query_on-Quiet none sql db = (refl, refl, refl, refl)
    query_on-Quiet (some h) sql db =
        query_result-Quiet h (c.exec db.env h (c_string sql))
          (call (executes h (c_string sql)) db).1

    pub query-Quiet : (sql : Text) (db : Postgres) → Quiet db (query c it sql db).1
    unfolding query
    query-Quiet sql db =
        let line : List Text = text "Executing query: " ∷ sql ∷ [] in
        let d : Postgres = (write_log debug line db).1 in
        Quiet-then db d (query_on c it (usable c d) sql d).1 (write_log-Quiet debug line db)
          (query_on-Quiet (usable c d) sql d)
