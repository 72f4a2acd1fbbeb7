-- ===== src/Postgres/Connection/Preparing.antt =====
-- `CreatePreparedSTMT` of PostgreSQL: what it prepares, and the statement that it makes.
use storm_byte_database.Prelude.{ℕ, ◌≡◌, Option, none, some, List, ◌∷◌, Text, arith, if◌then◌else◌}
use storm_byte_database.Prelude.Words.{c_string}
use storm_byte_database.Trim.{trim_end, IsTrimmed, trim_end-IsTrimmed}
use storm_byte_database.Database.{write_log}
use storm_byte_database.Postgres.Client.{Call, prepares, clears, Client}
use storm_byte_database.Postgres.Statement.{Stmt, create}
use storm_byte_database.Postgres.Members.{Postgres, call}
use storm_byte_database.Postgres.Connection.{is_query_end, created, create_on, create_stmt}

-- The statement that is made: it holds the connection, and the name that was prepared is the one that it executes.
abbrev pub made : ℕ → Text → Text → Stmt
made conn name sql = record (create name sql) { conn = some conn }

-- What the answer to a prepare makes of the object: the statement and the calls.
abbrev pub Makes : Client → Option ℕ → Stmt → List Call → Option Stmt × Postgres → Type 0
Makes c none p calls x = (x.0 ≡ none) × (x.1.env ≡ calls)
Makes c (some res) p calls x =
    (x.0 ≡ (if c.result_ok res then some p else none)) × (x.1.env ≡ clears res ∷ calls)

-- One prepare of the trimmed query, and what its answer makes.
abbrev pub Prepares : Client → ℕ → Text → Text → Text → Postgres → Option Stmt × Postgres → Type 0
Prepares c conn name sql trimmed db x =
    Makes c (c.prepare db.env conn (c_string name) (c_string trimmed)) (made conn name sql)
      (prepares conn (c_string name) (c_string trimmed) ∷ db.env) x

module _ (c : Client) (conn : ℕ) (name sql : Text) where
  created-Makes :
      (res : Option ℕ) (db : Postgres)
      → Makes c res (made conn name sql) db.env (created c conn res name sql db)
  unfolding created write_log
  created-Makes none db = ground arith
  created-Makes (some res) db = ground arith

  create_on-Prepares :
      (db : Postgres)
      → Prepares c conn name sql
          (trim_end is_query_end sql)
          db
          (create_on c (some conn) name sql db)
  unfolding create_on
  create_on-Prepares db =
      let trimmed : Text = c_string (trim_end is_query_end sql) in
      created-Makes (c.prepare db.env conn (c_string name) trimmed)
        (call (prepares conn (c_string name) trimmed) db).1

  create_on_held :
      (o : Option ℕ) (db : Postgres)
      → o ≡ some conn
      → Prepares c conn name sql (trim_end is_query_end sql) db (create_on c o name sql db)
  create_on_held o db e = rw e (create_on-Prepares db)

  -- CreatePreparedSTMT of a PostgreSQL object that holds a connection asks libpq once, to prepare the query
  -- less its longest suffix of semicolons and spaces; it makes a statement, on this connection and with the
  -- prepared name, exactly if the result is in order, and clears the result.
  pub create_stmt-Prepares :
      (db : Postgres)
      → db.own.conn ≡ some conn
      → (trimmed : Text) × IsTrimmed is_query_end sql trimmed
        × Prepares c conn name sql trimmed db (create_stmt c name sql db)
  unfolding create_stmt
  create_stmt-Prepares db e = (
    trim_end is_query_end sql,
    trim_end-IsTrimmed is_query_end sql,
    create_on_held db.own.conn db e,
  )
