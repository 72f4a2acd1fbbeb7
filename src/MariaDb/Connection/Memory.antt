-- ===== src/MariaDb/Connection/Memory.antt =====
-- A MariaDB statement keeps the query that it was made for.
use storm_byte_database.Prelude.{ℕ, ◌≡◌, none, some, Option, Text, arith, Action}
use storm_byte_database.Rows.{Iterable}
use storm_byte_database.Database.Programs.{Asks}
use storm_byte_database.MariaDb.Client.{Client}
use storm_byte_database.MariaDb.Statement.{Stmt}
use storm_byte_database.MariaDb.Output.Sending.{virtuals-Remembers}
use storm_byte_database.MariaDb.Members.{MariaDb}
use storm_byte_database.MariaDb.Construct.{construct}
use storm_byte_database.MariaDb.Connection.{SslSupport, create_on, create_stmt, backend}

module _ (c : Client) (ssl : SslSupport) where
  create_on-query :
      (o : Option ℕ) (name sql : Text) (db : MariaDb) (p : Stmt)
      → (create_on c ssl o name sql db).0 ≡ some p
      → p.query ≡ sql
  unfolding create_on construct
  create_on-query none name sql db p e = cc
  create_on-query (some h) name sql db p e = ground (arith, e)

  -- The contract of queries, filled by the backend.
  pub backend-Asks :
      (pre post closing : Action MariaDb (Unit {0})) (it : Iterable)
      → Asks (backend c ssl pre post closing it) (λ p. p.query)
  unfolding backend create_stmt
  backend-Asks pre post closing it = record {
    create_asks = λ name sql db p e. create_on-query db.own.conn name sql db p e;
    remembers = virtuals-Remembers c it;
  }
