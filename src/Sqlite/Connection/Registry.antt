-- ===== src/Sqlite/Connection/Registry.antt =====
-- `CreatePreparedSTMT` of SQLite and the destructor of a statement, against the contract of the registry.
use storm_byte_database.Prelude.{
  ℕ, ap, ◌≡◌, refl, inl, inr, Option, none, some, Text, arith, Option-cases, Action,
}
use storm_byte_database.Rows.{Iterable}
use storm_byte_database.Database.{write_log}
use storm_byte_database.Database.Registry.{Creates}
use storm_byte_database.Sqlite.Client.{Client}
use storm_byte_database.Sqlite.Statement.{Stmt, create, virtuals}
use storm_byte_database.Sqlite.Members.{Sqlite}
use storm_byte_database.Sqlite.Connection.{created, create_stmt, destroy_stmt, backend}

module _ (c : Client) where
  created-prepared_stmts :
      (h : Option ℕ) (p : Stmt) (db : Sqlite)
      → (created c h p db).1.prepared_stmts ≡ db.prepared_stmts
  unfolding created write_log
  created-prepared_stmts none p db = ground arith
  created-prepared_stmts (some h) p db = refl

  pub created-same :
      (h : Option ℕ) (p q : Stmt) (db : Sqlite) → (created c h p db).0 ≡ some q → q ≡ p
  unfolding created
  created-same none p q db e = cc
  created-same (some h) p q db e = ground arith

  create_stmt-prepared_stmts :
      (name sql : Text) (db : Sqlite)
      → (create_stmt c name sql db).1.prepared_stmts ≡ db.prepared_stmts
  unfolding create_stmt
  create_stmt-prepared_stmts name sql db = created-prepared_stmts _ _ _

  create_stmt-name :
      (name sql : Text) (db : Sqlite) (p : Stmt)
      → (create_stmt c name sql db).0 ≡ some p
      → p.name ≡ name
  unfolding create_stmt create
  create_stmt-name name sql db p e = ap (λ (q : Stmt). q.name) (created-same _ _ p _ e)

  destroy_stmt-prepared_stmts :
      (p : Stmt) (db : Sqlite) → (destroy_stmt p db).1.prepared_stmts ≡ db.prepared_stmts
  unfolding destroy_stmt
  destroy_stmt-prepared_stmts p db = elim (Option-cases p.handle) [
    | inl e ↦ rw (e, destroy_stmt) refl
    | inr (h, e) ↦ rw (e, destroy_stmt) refl
  ]

  module _ (pre post : Action Sqlite (Unit {0})) (it : Iterable) where
    -- A statement that is made carries the name that it was asked for, and neither making nor destroying one
    -- touches the registry.
    pub backend-Creates : Creates (backend c pre post it)
    unfolding backend virtuals
    backend-Creates = record {
      create_keeps = create_stmt-prepared_stmts;
      create_names = create_stmt-name;
      destroy_keeps = destroy_stmt-prepared_stmts;
    }
