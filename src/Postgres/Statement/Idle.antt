-- ===== src/Postgres/Statement/Idle.antt =====
-- `Execute` of a PostgreSQL statement neither opens nor closes a connection.
use storm_byte_database.Prelude.{
  ℕ, suc, ◌≡◌, refl, ◌∙◌, ap, Option, none, some, List, [], ◌∷◌, arith,
}
use storm_byte_database.Prelude.Words.{c_string}
use storm_byte_database.Value.{Value}
use storm_byte_database.Rows.{Iterable}
use storm_byte_database.Statement.{bind_all, execute}
use storm_byte_database.Postgres.Client.{Call, executes_prepared, Client}
use storm_byte_database.Postgres.Client.Counts.{given, finished, Idle}
use storm_byte_database.Postgres.Statement.{
  Stmt, binder, reset, cleared, finish, params, do_execute_on, do_execute, virtuals,
}

module _ (c : Client) (it : Iterable) where
  finish-Idle :
      (conn : ℕ) (res : Option ℕ) (calls : List Call) → Idle c calls (finish c it conn res calls).1
  unfolding finish given finished
  finish-Idle conn none calls = (refl, refl)
  finish-Idle conn (some r) calls = ground arith

  pub bind_all-calls :
      (args : List Value) (i : ℕ) (s : Stmt × List Call)
      → (bind_all (virtuals c it) i args s).1.1 ≡ s.1
  unfolding bind_all virtuals binder
  bind_all-calls [] i s = refl
  bind_all-calls (a ∷ args) i (p, calls) = bind_all-calls args (suc i) (binder i a (p, calls)).1

  do_execute_on-Idle :
      (o : Option ℕ) (p : Stmt) (calls : List Call)
      → Idle c calls (do_execute_on c it o (p, calls)).1.1
  unfolding do_execute_on given finished
  do_execute_on-Idle none p calls = (refl, refl)
  do_execute_on-Idle (some h) p calls =
      finish-Idle h (c.exec_prepared calls h (c_string p.stmt_name) (params p))
        (executes_prepared h (c_string p.stmt_name) (params p) ∷ calls)

  do_execute-Idle : (p : Stmt) (calls : List Call) → Idle c calls (do_execute c it (p, calls)).1.1
  unfolding do_execute
  do_execute-Idle p calls = do_execute_on-Idle p.conn p calls

  pub execute-Idle :
      (args : List Value) (p : Stmt) (calls : List Call)
      → Idle c calls (execute (virtuals c it) args (p, calls)).1.1
  unfolding execute virtuals reset
  execute-Idle args p calls =
      let s : Stmt × List Call = (bind_all (virtuals c it) 0 args (cleared p, calls)).1 in
      let same : s.1 ≡ calls = bind_all-calls args 0 (cleared p, calls) in
      let (g, f) = do_execute-Idle s.0 s.1 in (g ∙ ap (given c) same, f ∙ ap finished same)
