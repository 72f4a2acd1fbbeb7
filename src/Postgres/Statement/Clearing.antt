-- ===== src/Postgres/Statement/Clearing.antt =====
-- `Execute` of a PostgreSQL statement clears the result that it is given.
use storm_byte_database.Prelude.{
  ℕ, ◌+◌, ◌≡◌, refl, ap, Option, none, some, List, ◌∷◌, arith, is_some, one_if,
}
use storm_byte_database.Prelude.Words.{c_string}
use storm_byte_database.Value.{Value}
use storm_byte_database.Rows.{Iterable}
use storm_byte_database.Statement.{bind_all, execute}
use storm_byte_database.Postgres.Client.{Call, executes_prepared, Client}
use storm_byte_database.Postgres.Client.Counts.{results_given, results_cleared, Clears}
use storm_byte_database.Postgres.Statement.{
  Stmt, reset, cleared, finish, params, do_execute_on, do_execute, virtuals,
}
use storm_byte_database.Postgres.Statement.Idle.{bind_all-calls}

module _ (c : Client) (it : Iterable) where
  finish-takes :
      (conn : ℕ) (res : Option ℕ) (calls : List Call)
      → let after = (finish c it conn res calls).1 in
        (results_given c after ≡ results_given c calls)
        × (results_cleared after ≡ results_cleared calls + one_if (is_some res))
  unfolding finish results_given results_cleared
  finish-takes conn none calls = (refl, omega arith)
  finish-takes conn (some r) calls = ground arith

  do_execute_on-Clears :
      (o : Option ℕ) (p : Stmt) (calls : List Call)
      → Clears c calls (do_execute_on c it o (p, calls)).1.1
  unfolding do_execute_on results_given results_cleared
  do_execute_on-Clears none p calls = refl
  do_execute_on-Clears (some h) p calls =
      let asked : List Call = executes_prepared h (c_string p.stmt_name) (params p) ∷ calls in
      let (g, t) =
        finish-takes h (c.exec_prepared calls h (c_string p.stmt_name) (params p)) asked in
      omega (arith, g, t)

  do_execute-Clears :
      (p : Stmt) (calls : List Call) → Clears c calls (do_execute c it (p, calls)).1.1
  unfolding do_execute
  do_execute-Clears p calls = do_execute_on-Clears p.conn p calls

  pub execute-Clears :
      (args : List Value) (p : Stmt) (calls : List Call)
      → Clears c calls (execute (virtuals c it) args (p, calls)).1.1
  unfolding execute virtuals reset
  execute-Clears args p calls =
      let s : Stmt × List Call = (bind_all (virtuals c it) 0 args (cleared p, calls)).1 in
      let same : s.1 ≡ calls = bind_all-calls c it args 0 (cleared p, calls) in
      omega (arith, do_execute-Clears s.0 s.1, ap (results_given c) same, ap results_cleared same)
