-- ===== src/Database/Steady.antt =====
-- What every use of a database keeps: a relation that the methods of a backend keep is kept by the methods of
-- `Database` over them.
use storm_byte_database.Prelude.{
  Text, text, Option, none, some, List, [], ◌∷◌, lookup, emplace, store, inl, inr, Option-cases,
}
use storm_byte_database.Value.{Value}
use storm_byte_database.Statement.{execute}
use storm_byte_database.Database.{
  Db, Backend, IsolationLevel, Level, debug, write_log, register, register_if_made, do_prepare_stmt,
  prepare_stmt, execute_stmt, begin_transaction, commit_transaction, rollback_transaction,
}

-- The uses of a database, but for connecting and disconnecting.
pub data Use : Type 0 where
  queries silently : Text → Use
  prepares : Text → Text → Use
  executes : Text → List Value → Use
  begins : IsolationLevel → Use
  commits rolls_back : Use

module _ {P W E : Type 0} (b : Backend P W E) where
  unfoldable pub use_db : Use → Db P W E → Db P W E
  use_db (queries sql) db = (b.query sql db).1
  use_db (silently sql) db = (b.silent_query sql db).1
  use_db (prepares name query) db = (prepare_stmt b name query db).1
  use_db (executes name args) db = (execute_stmt b name args db).1
  use_db (begins level) db = (begin_transaction b 0 level db).1
  use_db commits db = (commit_transaction b db).1
  use_db rolls_back db = (rollback_transaction b db).1

module _ {P W E : Type 0} where
  -- The methods of a backend keep `R`, and the registry and the log are no matter.
  pub record Steady (b : Backend P W E) (R : Db P W E → Db P W E → Type 0) : Type 0 where
    pub again : (db : Db P W E) → R db db
    pub further : (db d db' : Db P W E) → R db d → R d db' → R db db'
    pub logs : (l : Level) (pieces : List Text) (db : Db P W E) → R db (write_log l pieces db).1
    pub registers : (m : List (Text × P)) (db : Db P W E) → R db (record db { prepared_stmts = m })
    pub creates : (name query : Text) (db : Db P W E) → R db (b.create_stmt name query db).1
    pub destroys : (p : P) (db : Db P W E) → R db (b.destroy_stmt p db).1
    pub runs :
        (args : List Value) (p : P) (db : Db P W E)
        → R db (record db { env = (execute b.statement args (p, db.env)).1.1 })
    pub starts : (level : IsolationLevel) (db : Db P W E) → R db (b.do_begin level db).1
    pub does : (sql : Text) (db : Db P W E) → R db (b.do_silent_query sql db).1
    pub asks : (sql : Text) (db : Db P W E) → R db (b.query sql db).1
    pub tells : (sql : Text) (db : Db P W E) → R db (b.silent_query sql db).1

  module _ {b : Backend P W E} {R : Db P W E → Db P W E → Type 0} (c : Steady b R) where
    register-Steady : (p : P) (db : Db P W E) → R db (register b p db).1
    unfolding register
    register-Steady p db =
        let d : Db P W E = record db {
          prepared_stmts = emplace (b.statement.name p) p db.prepared_stmts;
        } in
        elim (Option-cases (lookup (b.statement.name p) db.prepared_stmts)) [
          | inl e ↦ rw (e, register) (c.registers _ db)
          | inr (q, e) ↦
              rw (e, register)
                (c.further db d (b.destroy_stmt p d).1 (c.registers _ db) (c.destroys p d))
        ]

    register_if_made-Steady : (o : Option P) (db : Db P W E) → R db (register_if_made b o db).1
    unfolding register_if_made
    register_if_made-Steady none db = c.again db
    register_if_made-Steady (some p) db = register-Steady p db

    prepare_stmt-Steady :
        (name query : Text) (db : Db P W E) → R db (prepare_stmt b name query db).1
    unfolding prepare_stmt do_prepare_stmt
    prepare_stmt-Steady name query db =
        let line : List Text = text "Preparing statement '" ∷ name ∷ text "': " ∷ query ∷ [] in
        let d : Db P W E = (write_log debug line db).1 in
        let (o, k) = b.create_stmt name query d in
        c.further db k (register_if_made b o k).1
          (c.further db d k (c.logs debug line db) (c.creates name query d))
          (register_if_made-Steady o k)

    execute_stmt-Steady :
        (name : Text) (args : List Value) (db : Db P W E) → R db (execute_stmt b name args db).1
    unfolding execute_stmt
    execute_stmt-Steady name args db = elim (Option-cases (lookup name db.prepared_stmts)) [
      | inl e ↦ rw (e, execute_stmt) (c.again db)
      | inr (p, e) ↦
          let (p', e') = (execute b.statement args (p, db.env)).1 in
          let d : Db P W E = record db { env = e' } in
          rw (e, execute_stmt)
            (c.further db d (record d { prepared_stmts = store name p' db.prepared_stmts })
              (c.runs args p db) (c.registers _ d))
    ]

    -- Every use keeps the relation.
    pub use_db-Steady : (u : Use) (db : Db P W E) → R db (use_db b u db)
    unfolding begin_transaction commit_transaction rollback_transaction use_db
    use_db-Steady (queries sql) db = c.asks sql db
    use_db-Steady (silently sql) db = c.tells sql db
    use_db-Steady (prepares name query) db = prepare_stmt-Steady name query db
    use_db-Steady (executes name args) db = execute_stmt-Steady name args db
    use_db-Steady (begins level) db =
        let line : List Text = text "BeginTransaction" ∷ [] in
        let d : Db P W E = (write_log debug line db).1 in
        c.further db d (b.do_begin level d).1 (c.logs debug line db) (c.starts level d)
    use_db-Steady commits db =
        let line : List Text = text "CommitTransaction" ∷ [] in
        let d : Db P W E = (write_log debug line db).1 in
        c.further db d (b.do_silent_query (text "COMMIT;") d).1 (c.logs debug line db) (c.does _ d)
    use_db-Steady rolls_back db =
        let line : List Text = text "RollbackTransaction" ∷ [] in
        let d : Db P W E = (write_log debug line db).1 in
        c.further db d (b.do_silent_query (text "ROLLBACK;") d).1 (c.logs debug line db)
          (c.does _ d)
