-- ===== src/Sqlite/Connection/Memory.antt =====
-- An SQLite statement keeps the query that it was made for.
use storm_byte_database.Prelude.{◌≡◌, ap, some, Text, Action}
use storm_byte_database.Rows.{Iterable}
use storm_byte_database.Database.Programs.{Asks}
use storm_byte_database.Sqlite.Client.{Client}
use storm_byte_database.Sqlite.Statement.{Stmt, create}
use storm_byte_database.Sqlite.Statement.Binding.{virtuals-Remembers}
use storm_byte_database.Sqlite.Members.{Sqlite}
use storm_byte_database.Sqlite.Connection.{create_stmt, backend}
use storm_byte_database.Sqlite.Connection.Registry.{created-same}

module _ (c : Client) (pre post : Action Sqlite (Unit {0})) (it : Iterable) where
  create_stmt-query :
      (name sql : Text) (db : Sqlite) (p : Stmt)
      → (create_stmt c name sql db).0 ≡ some p
      → p.query ≡ sql
  unfolding create_stmt create
  create_stmt-query name sql db p e = ap (λ (q : Stmt). q.query) (created-same c _ _ p _ e)

  -- The contract of queries, filled by the backend.
  pub backend-Asks : Asks (backend c pre post it) (λ p. p.query)
  unfolding backend
  backend-Asks = record { create_asks = create_stmt-query; remembers = virtuals-Remembers c it }
