-- ===== src/Database/Handles/Lives.antt =====
-- Over its life a database object loses no handle of a statement.
use storm_byte_database.Prelude.{
  ℕ, ◌+◌, ◌≡◌, refl, ap, true, false, inl, inr, Option, none, some, List, [], ◌∷◌, Text, text,
  arith, lookup, emplace, Bool-cases, Option-cases,
}
use storm_byte_database.Value.{Value}
use storm_byte_database.Statement.{execute}
use storm_byte_database.Database.{
  Db, Backend, low_level, debug, write_log, connect, disconnect, register, register_if_made,
  do_prepare_stmt, prepare_stmt, execute_stmt, begin_transaction, commit_transaction,
  rollback_transaction,
}
use storm_byte_database.Database.Steady.{
  Use, queries, silently, prepares, executes, begins, commits, rolls_back, use_db,
}
use storm_byte_database.Database.Lifecycle.{left}
use storm_byte_database.Database.Lifetime.{Life, connects, disconnects, uses, live, live_all}
use storm_byte_database.Database.Handles.{
  held, weight_made, held-emplace_new, held-emplace_taken, held-store, Evens, Handles,
  Evens-further, write_log-Evens,
}

module _ {P W E : Type 0} (weight : P → ℕ) (given taken : E → ℕ) where
  module _ {b : Backend P W E} (c : Handles weight given taken b) where
    -- A statement whose name is taken is destroyed, so that it is not lost.
    register-evens :
        (p : P) (db : Db P W E)
        → let db' = (register b p db).1 in
          given db'.env + taken db.env + held weight db.prepared_stmts + weight p
          ≡ given db.env + taken db'.env + held weight db'.prepared_stmts
    unfolding register
    register-evens p db =
        let name : Text = b.statement.name p in
        let d : Db P W E = record db { prepared_stmts = emplace name p db.prepared_stmts } in
        elim (Option-cases (lookup name db.prepared_stmts)) [
          | inl e ↦
              rw (e, register) (omega (arith, held-emplace_new weight name p db.prepared_stmts e))
          | inr (q, e) ↦
              let (same, back) = c.destroys p d in
              rw (e, register)
                (omega (
                  arith,
                  ap (held weight) same,
                  back,
                  held-emplace_taken weight name p q db.prepared_stmts e,
                ))
        ]

    register_if_made-evens :
        (o : Option P) (db : Db P W E)
        → let db' = (register_if_made b o db).1 in
          given db'.env + taken db.env + held weight db.prepared_stmts + weight_made weight o
          ≡ given db.env + taken db'.env + held weight db'.prepared_stmts
    unfolding register_if_made
    register_if_made-evens none db = omega arith
    register_if_made-evens (some p) db = register-evens p db

    prepare_stmt-Evens :
        (name query : Text) (db : Db P W E)
        → Evens weight given taken db (prepare_stmt b name query db).1
    unfolding prepare_stmt do_prepare_stmt
    prepare_stmt-Evens name query db =
        let line : List Text = text "Preparing statement '" ∷ name ∷ text "': " ∷ query ∷ [] in
        let d : Db P W E = (write_log debug line db).1 in
        let (o, k) = b.create_stmt name query d in
        let (same, more) = c.creates name query d in
        omega (
          arith,
          write_log-Evens weight given taken debug line db,
          ap (held weight) same,
          more,
          register_if_made-evens o k,
        )

    execute_stmt-Evens :
        (name : Text) (args : List Value) (db : Db P W E)
        → Evens weight given taken db (execute_stmt b name args db).1
    unfolding execute_stmt
    execute_stmt-Evens name args db = elim (Option-cases (lookup name db.prepared_stmts)) [
      | inl e ↦ rw (e, execute_stmt) refl
      | inr (p, e) ↦
          let p' : P = (execute b.statement args (p, db.env)).1.0 in
          let (same, even) = c.runs args p db.env in
          rw (e, execute_stmt)
            (omega (arith, even, held-store weight name p' p db.prepared_stmts e same))
    ]

    use_db-Evens : (u : Use) (db : Db P W E) → Evens weight given taken db (use_db b u db)
    unfolding begin_transaction commit_transaction rollback_transaction use_db
    use_db-Evens (queries sql) db = c.asks sql db
    use_db-Evens (silently sql) db = c.tells sql db
    use_db-Evens (prepares name query) db = prepare_stmt-Evens name query db
    use_db-Evens (executes name args) db = execute_stmt-Evens name args db
    use_db-Evens (begins level) db =
        let d : Db P W E = (write_log debug (text "BeginTransaction" ∷ []) db).1 in
        Evens-further weight given taken db d (b.do_begin level d).1
          (write_log-Evens weight given taken debug _ db) (c.starts level d)
    use_db-Evens commits db =
        let d : Db P W E = (write_log debug (text "CommitTransaction" ∷ []) db).1 in
        Evens-further weight given taken db d (b.do_silent_query (text "COMMIT;") d).1
          (write_log-Evens weight given taken debug _ db) (c.does _ d)
    use_db-Evens rolls_back db =
        let d : Db P W E = (write_log debug (text "RollbackTransaction" ∷ []) db).1 in
        Evens-further weight given taken db d (b.do_silent_query (text "ROLLBACK;") d).1
          (write_log-Evens weight given taken debug _ db) (c.does _ d)

    connect-Evens : (db : Db P W E) → Evens weight given taken db (connect b db).1
    unfolding connect
    connect-Evens db =
        let d1 : Db P W E = (write_log low_level (text "Connect enter" ∷ []) db).1 in
        let d2 : Db P W E = (b.do_pre_connect d1).1 in
        let d3 : Db P W E = (b.do_connect d2).1 in
        let on : Db P W E = record d3 { connected = true } in
        let d4 : Db P W E = (b.do_post_connect on).1 in
        let s1 : Evens weight given taken db d1 =
          write_log-Evens weight given taken low_level (text "Connect enter" ∷ []) db in
        elim (Bool-cases (b.do_connect d2).0) [
          | inl e ↦ rw e (
              omega (
                arith,
                s1,
                c.pre_connects d1,
                c.joins d2,
                c.post_connects on,
                write_log-Evens weight given taken low_level (left true) d4,
              ))
          | inr e ↦ rw e (
              omega (
                arith,
                s1,
                c.pre_connects d1,
                c.joins d2,
                write_log-Evens weight given taken low_level (left false) d3,
              ))
        ]

    pub disconnect-Evens : (db : Db P W E) → Evens weight given taken db (disconnect b db).1
    unfolding disconnect
    disconnect-Evens db =
        let d1 : Db P W E = (write_log low_level (text "Disconnect enter" ∷ []) db).1 in
        let d2 : Db P W E = (b.do_pre_disconnect d1).1 in
        let d3 : Db P W E = (b.do_disconnect d2).1 in
        let d4 : Db P W E = (b.do_post_disconnect d3).1 in
        let d5 : Db P W E = record d4 { connected = false } in
        omega (
          arith,
          write_log-Evens weight given taken low_level (text "Disconnect enter" ∷ []) db,
          c.pre_disconnects d1,
          c.leaves d2,
          c.post_disconnects d3,
          write_log-Evens weight given taken low_level (text "Disconnect leave" ∷ []) d5,
        )

    live-Evens : (l : Life) (db : Db P W E) → Evens weight given taken db (live b l db)
    unfolding live
    live-Evens connects db = connect-Evens db
    live-Evens disconnects db = disconnect-Evens db
    live-Evens (uses u) db = use_db-Evens u db

    -- A life of a database object, whatever it does, loses no handle of a statement.
    pub live_all-Evens :
        (ls : List Life) (db : Db P W E) → Evens weight given taken db (live_all b ls db)
    unfolding live_all
    live_all-Evens [] db = refl
    live_all-Evens (l ∷ ls) db =
        Evens-further weight given taken db (live b l db) (live_all b ls (live b l db))
          (live-Evens l db) (live_all-Evens ls (live b l db))
