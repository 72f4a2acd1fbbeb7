-- ===== src/MariaDb/Output.antt =====
-- lib/optional/StormByte/database/mariadb/prepared_stmt.cxx, `DoExecute`: the execution of a statement and the loop that
-- fetches its rows into the buffers of its columns.
pub mod Loop
pub mod Idle
pub mod Sending
use storm_byte_database.Prelude.{
  ℕ, zero, suc, ◌+◌, ◌-◌, Text, text, Bool, true, false, not, ◌&&◌, ◌||◌, Option, none, some, List,
  [], ◌∷◌, ◌++◌, map, length, get_elem?, replicate, ◌==◌, ltb, is_empty, Action, if◌then◌else◌,
}
use storm_byte_database.Prelude.Int.{ℤ, pos}
use storm_byte_database.Prelude.Words.{c_string, take}
use storm_byte_database.Exception.{Exception, ok, err}
use storm_byte_database.Value.{Value, nan, int_eq}
use storm_byte_database.Row.{Row}
use storm_byte_database.Columns.{fill_row}
use storm_byte_database.Rows.{Rows, ExpectedRows, Iterable}
use storm_byte_database.Statement.{Virtuals}
use storm_byte_database.MariaDb.Client.{
  FieldType, Field, Cell, FetchCode, row, no_data, truncated, failed, Call, binds_params,
  executes_stmt, binds_result, stores_stmt, fetches, fetches_column, frees_result, frees_stmt,
  Client,
}
use storm_byte_database.MariaDb.Fetch.{
  column_name, type_of_field, unsigned_field, length_of_field, is_binary, is_flag,
}
use storm_byte_database.MariaDb.Statement.{Stmt, binder, reset, bind_all_in}
use storm_byte_database.MariaDb.Buffers.{
  Out, bind_out, fetched, refetches, refetched, value_or_null,
}

abbrev pub stmt_message : Option Text → Text
stmt_message none = text "Unknown MySQL stmt error"
stmt_message (some s) = c_string s

module _ (c : Client) where
  -- Every column after a fetch; the cells are those after the call.
  pub fetch_columns : List Call → ℕ → ℕ → List Out → List Out
  unfolding fetched
  fetch_columns calls s i [] = []
  fetch_columns calls s i (o ∷ os) =
      fetched c.write (c.cell calls s i) o ∷ fetch_columns calls s (suc i) os

  -- The loop over the columns of a truncated row; the Boolean is whether it went through.
  pub refetch_columns : ℕ → ℕ → List Out → List Call → Bool × List Out × List Call
  unfolding refetches refetched
  refetch_columns s i [] calls = (true, [], calls)
  refetch_columns s i (o ∷ os) calls =
      let rest = refetch_columns s (suc i) os (fetches_column s i ∷ calls) in
      let kept = refetch_columns s (suc i) os calls in
      if refetches o
      then (if c.stmt_fetch_column calls s i
          then (rest.0, refetched c.write o ∷ rest.1, rest.2)
          else (false, o ∷ os, fetches_column s i ∷ calls))
      else (kept.0, o ∷ kept.1, kept.2)

  pub out_row : ℕ → List Out → Row
  unfolding value_or_null
  out_row meta os =
      fill_row (λ i. column_name (c.field meta i))
        (λ i. value_or_null (c.field meta i) (get_elem? os i)) (c.num_fields meta)

  pub bind_outs : ℕ → ℕ → ℕ → List Out
  unfolding bind_out
  bind_outs meta i zero = []
  bind_outs meta i (suc n) = bind_out (c.field meta i) ∷ bind_outs meta (suc i) n

  pub fetch_failed : ℕ → ℕ → Text → List Call → ExpectedRows × List Call
  fetch_failed meta s unknown calls = (
    err (
        Exception.execute_error
          (elim (c.stmt_error calls s) [ none ↦ unknown | some m ↦ c_string m ])),
    frees_result meta ∷ calls,
  )

  module _ (it : Iterable) (meta s : ℕ) where
    -- The `while (true)` loop, on fuel; with the client's bound of the rows for fuel it ends by its own tests.
    pub fetch_loop : ℕ → List Out → Rows → List Call → ExpectedRows × List Call
    unfolding fetch_columns refetch_columns out_row fetch_failed
    fetch_loop zero os rows calls = (ok rows, calls)
    fetch_loop (suc fuel) os rows calls =
        let after = fetches s ∷ calls in
        let got = fetch_columns after s 0 os in
        elim (c.stmt_fetch calls s) [
          | no_data ↦ (ok rows, frees_stmt s ∷ frees_result meta ∷ after)
          | failed ↦ fetch_failed meta s (text "Unknown MySQL stmt fetch error") after
          | row ↦ fetch_loop fuel got (it.add rows (out_row meta got)) after
          | truncated ↦
              let again = refetch_columns s 0 got after in
              elim again.0 [
                | false ↦ fetch_failed meta s (text "Unknown MySQL stmt fetch_column error") again.2
                | true ↦ fetch_loop fuel again.1 (it.add rows (out_row meta again.1)) again.2
              ]
        ]

    -- From `bind_out` on.
    pub fetch_all : List Call → ExpectedRows × List Call
    unfolding bind_outs fetch_loop
    fetch_all calls =
        let os = bind_outs meta 0 (c.num_fields meta) in
        let bound = binds_result s ∷ calls in
        let stored = stores_stmt s ∷ bound in
        if not (c.stmt_bind_result calls s)
        then fetch_failed meta s (text "Unknown MySQL stmt error") bound
        else if not (c.stmt_store bound s)
        then fetch_failed meta s (text "Unknown MySQL stmt error") stored
        else fetch_loop (suc (c.rows_left stored s)) os [] stored

  stmt_failed : ℕ → List Call → ExpectedRows × List Call
  stmt_failed s calls = (err (Exception.execute_error (stmt_message (c.stmt_error calls s))), calls)

  module _ (it : Iterable) where
    with_metadata : ℕ → Option ℕ → List Call → ExpectedRows × List Call
    unfolding fetch_all stmt_failed
    with_metadata s none calls =
        if c.stmt_field_count calls s == 0 then (ok [], calls) else stmt_failed s calls
    with_metadata s (some meta) calls = fetch_all it meta s calls

    pub run_stmt : ℕ → List Value → List Call → ExpectedRows × List Call
    unfolding with_metadata stmt_failed
    run_stmt s params calls =
        let bound =
          if is_empty params then calls else binds_params s (bind_all_in params) ∷ calls in
        let executed = executes_stmt s ∷ bound in
        if not (is_empty params) && not (c.stmt_bind_param calls s)
        then stmt_failed s bound
        else if not (c.stmt_execute bound s)
        then stmt_failed s executed
        else with_metadata s (c.stmt_metadata executed s) executed

    execute_on : Option ℕ → Option ℕ → List Value → List Call → ExpectedRows × List Call
    unfolding run_stmt
    execute_on (some conn) (some s) params calls = run_stmt s params calls
    execute_on _ _ params calls =
        (err (Exception.execute_error (text "No DB connection or statement")), calls)

    -- `PreparedSTMT::DoExecute`
    pub do_execute : Action (Stmt × List Call) ExpectedRows
    unfolding execute_on
    do_execute (p, calls) =
        let (result, after) = execute_on p.conn p.stmt p.params calls in (result, (p, after))

    unfoldable pub virtuals : Virtuals Stmt (List Call)
    virtuals = record {
      name = λ p. p.name;
      binder = binder;
      reset = reset;
      do_execute = do_execute;
    }
