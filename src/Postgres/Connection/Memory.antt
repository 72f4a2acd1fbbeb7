-- ===== src/Postgres/Connection/Memory.antt =====
-- A PostgreSQL statement keeps the query that it was made for.
use storm_byte_database.Prelude.{
  ℕ, ◌≡◌, inl, inr, none, some, Option, Text, arith, Bool-cases, Action,
}
use storm_byte_database.Rows.{Iterable}
use storm_byte_database.Database.{write_log}
use storm_byte_database.Database.Programs.{Asks}
use storm_byte_database.Postgres.Client.{Client}
use storm_byte_database.Postgres.Statement.{Stmt, create}
use storm_byte_database.Postgres.Statement.Sending.{virtuals-Remembers}
use storm_byte_database.Postgres.Members.{Postgres}
use storm_byte_database.Postgres.Connection.{created, create_on, create_stmt, backend}

module _ (c : Client) where
  created-query :
      (conn : ℕ) (res : Option ℕ) (name sql : Text) (db : Postgres) (p : Stmt)
      → (created c conn res name sql db).0 ≡ some p
      → p.query ≡ sql
  unfolding created create write_log
  created-query conn none name sql db p e = cc
  created-query conn (some res) name sql db p e = elim (Bool-cases (c.result_ok res)) [
    | inl g ↦ ground (arith, g, e)
    | inr g ↦ ground (arith, g, e)
  ]

  create_on-query :
      (o : Option ℕ) (name sql : Text) (db : Postgres) (p : Stmt)
      → (create_on c o name sql db).0 ≡ some p
      → p.query ≡ sql
  unfolding create_on
  create_on-query none name sql db p e = cc
  create_on-query (some conn) name sql db p e = created-query conn _ name sql _ p e

  -- The contract of queries, filled by the backend.
  pub backend-Asks :
      (pre post closing : Action Postgres (Unit {0})) (it : Iterable)
      → Asks (backend c pre post closing it) (λ p. p.query)
  unfolding backend create_stmt
  backend-Asks pre post closing it = record {
    create_asks = λ name sql db p e. create_on-query db.own.conn name sql db p e;
    remembers = virtuals-Remembers c it;
  }
