-- ===== src/MariaDb/Output/Idle.antt =====
-- `Execute` of a MariaDB statement gives out and closes no handle, and keeps its own.
use storm_byte_database.Prelude.{
  ℕ, zero, suc, ◌≡◌, refl, ◌∙◌, Bool, inl, inr, Option, none, some, List, [], ◌∷◌, arith, Text,
  text, Bool-cases,
}
use storm_byte_database.Value.{Value}
use storm_byte_database.Rows.{Rows, Iterable}
use storm_byte_database.Statement.{bind_all, execute}
use storm_byte_database.MariaDb.Client.{
  Call, binds_params, executes_stmt, binds_result, stores_stmt, fetches, fetches_column, Client,
}
use storm_byte_database.MariaDb.Client.Counts.{
  closed, given, stmts_given, stmts_closed, Idle, Idle-further,
}
use storm_byte_database.MariaDb.Statement.{Stmt, binder, reset, bind_all_in}
use storm_byte_database.MariaDb.Statement.Binding.{
  binder-calls, binder-handle, reset-handle, reset-Idle,
}
use storm_byte_database.MariaDb.Buffers.{Out}
use storm_byte_database.MariaDb.Output.{
  refetch_columns, fetch_columns, fetch_failed, fetch_loop, out_row, bind_outs, fetch_all,
  stmt_failed, with_metadata, run_stmt, execute_on, do_execute, virtuals,
}
use storm_byte_database.MariaDb.Output.Loop.{FetchCode-cases}

module _ (c : Client) where
  refetch_columns-Idle :
      (s i : ℕ) (os : List Out) (calls : List Call)
      → Idle c calls (refetch_columns c s i os calls).2
  unfolding refetch_columns given closed stmts_given stmts_closed
  refetch_columns-Idle s i [] calls = (refl, refl, refl, refl)
  refetch_columns-Idle s i (o ∷ os) calls = ground (
    arith,
    refetch_columns-Idle s (suc i) os (fetches_column s i ∷ calls),
    refetch_columns-Idle s (suc i) os calls,
  )

  fetch_failed-Idle :
      (meta s : ℕ) (unknown : Text) (calls : List Call)
      → Idle c calls (fetch_failed c meta s unknown calls).1
  unfolding fetch_failed given closed stmts_given stmts_closed
  fetch_failed-Idle meta s unknown calls = (refl, refl, refl, refl)

  module _ (it : Iterable) (meta s : ℕ) where
    fetch_loop-Idle :
        (fuel : ℕ) (os : List Out) (rows : Rows) (calls : List Call)
        → Idle c calls (fetch_loop c it meta s fuel os rows calls).1
    unfolding fetch_loop given closed stmts_given stmts_closed
    fetch_loop-Idle zero os rows calls = (refl, refl, refl, refl)
    fetch_loop-Idle (suc fuel) os rows calls =
        let after : List Call = fetches s ∷ calls in
        let got : List Out = fetch_columns c after s 0 os in
        let again : Bool × List Out × List Call = refetch_columns c s 0 got after in
        let first : Idle c calls again.2 = refetch_columns-Idle s 0 got after in
        elim (FetchCode-cases (c.stmt_fetch calls s)) [
          | inl e ↦
              rw (e, fetch_loop) (fetch_loop-Idle fuel got (it.add rows (out_row c meta got)) after)
          | inr (inl e) ↦ elim (Bool-cases again.0) [
            | inl k ↦
                let more : List Call =
                  (fetch_loop c it meta s fuel again.1 (it.add rows (out_row c meta again.1))
                    again.2).1 in
                rw (e, fetch_loop, k)
                  (Idle-further c calls again.2 more first
                    (fetch_loop-Idle fuel again.1 (it.add rows (out_row c meta again.1)) again.2))
            | inr k ↦
                let unknown : Text = text "Unknown MySQL stmt fetch_column error" in
                rw (e, fetch_loop, k)
                  (Idle-further c calls again.2 (fetch_failed c meta s unknown again.2).1 first
                    (fetch_failed-Idle meta s unknown again.2))
          ]
          | inr (inr (inl e)) ↦ rw (e, fetch_loop) (refl, refl, refl, refl)
          | inr (inr (inr e)) ↦
              rw (e, fetch_loop)
                (fetch_failed-Idle meta s (text "Unknown MySQL stmt fetch error") after)
        ]

    fetch_all-Idle : (calls : List Call) → Idle c calls (fetch_all c it meta s calls).1
    unfolding fetch_all given closed stmts_given stmts_closed
    fetch_all-Idle calls =
        let bound : List Call = binds_result s ∷ calls in
        let stored : List Call = stores_stmt s ∷ bound in
        let unknown : Text = text "Unknown MySQL stmt error" in
        ground (
          arith,
          fetch_failed-Idle meta s unknown bound,
          fetch_failed-Idle meta s unknown stored,
          fetch_loop-Idle (suc (c.rows_left stored s)) (bind_outs c meta 0 (c.num_fields meta)) []
              stored,
        )

  stmt_failed-Idle : (s : ℕ) (calls : List Call) → Idle c calls (stmt_failed c s calls).1
  unfolding stmt_failed
  stmt_failed-Idle s calls = (refl, refl, refl, refl)

  module _ (it : Iterable) where
    with_metadata-Idle :
        (s : ℕ) (o : Option ℕ) (calls : List Call) → Idle c calls (with_metadata c it s o calls).1
    unfolding with_metadata
    with_metadata-Idle s none calls = ground (arith, stmt_failed-Idle s calls)
    with_metadata-Idle s (some meta) calls = fetch_all-Idle it meta s calls

    run_stmt-Idle :
        (s : ℕ) (params : List Value) (calls : List Call)
        → Idle c calls (run_stmt c it s params calls).1
    unfolding run_stmt given closed stmts_given stmts_closed
    run_stmt-Idle s [] calls =
        let executed : List Call = executes_stmt s ∷ calls in
        ground (
          arith,
          stmt_failed-Idle s executed,
          with_metadata-Idle s (c.stmt_metadata executed s) executed,
        )
    run_stmt-Idle s (a ∷ args) calls =
        let bound : List Call = binds_params s (bind_all_in (a ∷ args)) ∷ calls in
        let executed : List Call = executes_stmt s ∷ bound in
        ground (
          arith,
          stmt_failed-Idle s bound,
          stmt_failed-Idle s executed,
          with_metadata-Idle s (c.stmt_metadata executed s) executed,
        )

    execute_on-Idle :
        (o p : Option ℕ) (params : List Value) (calls : List Call)
        → Idle c calls (execute_on c it o p params calls).1
    unfolding execute_on
    execute_on-Idle none none params calls = (refl, refl, refl, refl)
    execute_on-Idle none (some s) params calls = (refl, refl, refl, refl)
    execute_on-Idle (some h) none params calls = (refl, refl, refl, refl)
    execute_on-Idle (some h) (some s) params calls = run_stmt-Idle s params calls

    do_execute-Idle : (s : Stmt × List Call) → Idle c s.1 (do_execute c it s).1.1
    unfolding do_execute
    do_execute-Idle (p, calls) = execute_on-Idle p.conn p.stmt p.params calls

    bind_all-calls :
        (args : List Value) (i : ℕ) (s : Stmt × List Call)
        → (bind_all (virtuals c it) i args s).1.1 ≡ s.1
    unfolding bind_all virtuals
    bind_all-calls [] i s = refl
    bind_all-calls (a ∷ args) i s =
        bind_all-calls args (suc i) (binder i a s).1 ∙ binder-calls i a s

    pub execute-Idle :
        (args : List Value) (s : Stmt × List Call) → Idle c s.1 (execute (virtuals c it) args s).1.1
    unfolding execute virtuals
    execute-Idle args s =
        let s1 : Stmt × List Call = (reset s).1 in
        let s2 : Stmt × List Call = (bind_all (virtuals c it) 0 args s1).1 in
        let s3 : Stmt × List Call = (do_execute c it s2).1 in
        let bound : Idle c s1.1 s2.1 = rw (bind_all-calls args 0 s1) (refl, refl, refl, refl) in
        Idle-further c s.1 s1.1 (reset s3).1.1 (reset-Idle c s) (
          Idle-further c s1.1 s2.1 (reset s3).1.1 bound
            (Idle-further c s2.1 s3.1 (reset s3).1.1 (do_execute-Idle s2) (reset-Idle c s3)))

    bind_all-handle :
        (args : List Value) (i : ℕ) (s : Stmt × List Call)
        → (bind_all (virtuals c it) i args s).1.0.stmt ≡ s.0.stmt
    unfolding bind_all virtuals
    bind_all-handle [] i s = refl
    bind_all-handle (a ∷ args) i s =
        bind_all-handle args (suc i) (binder i a s).1 ∙ binder-handle i a s

    pub execute-handle :
        (args : List Value) (s : Stmt × List Call)
        → (execute (virtuals c it) args s).1.0.stmt ≡ s.0.stmt
    unfolding execute virtuals do_execute
    execute-handle args s =
        let s1 : Stmt × List Call = (reset s).1 in
        let s2 : Stmt × List Call = (bind_all (virtuals c it) 0 args s1).1 in
        reset-handle (do_execute c it s2).1 ∙ bind_all-handle args 0 s1 ∙ reset-handle s
