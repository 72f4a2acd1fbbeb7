-- ===== src/MariaDb/Examples.antt =====
-- The MariaDB backend at work.
mod Objects
mod Lives
use storm_byte_database.Prelude.{
  Text, zero, suc, ◌≤◌, length, ap, ◌≡◌, refl, text, Bool, true, false, List, [], ◌∷◌, map, arith,
  if◌then◌else◌,
}
use storm_byte_database.Prelude.Int.{ℤ, pos}
use storm_byte_database.Prelude.Words.{to_int32, to_int64, take}
use storm_byte_database.Value.{Value, nan}
use storm_byte_database.Rows.{Rows, vector_rows}
use storm_byte_database.Statement.{execute}
use storm_byte_database.Database.{SslMode}
use storm_byte_database.MariaDb.Client.{
  Bind, Buffer, int32, uint32, int64, uint64, character, bytes, FieldType, Cell, no_data, truncated,
  Call, fetches, Client, FiniteResults,
}
use storm_byte_database.MariaDb.Statement.{Stmt, bind_all_in}
use storm_byte_database.MariaDb.Statement.Binding.{unreadable, Documented, meant}
use storm_byte_database.MariaDb.Buffers.{characters, Out, fetched, refetches, refetched}
use storm_byte_database.MariaDb.Output.{do_execute, virtuals}
use storm_byte_database.MariaDb.Buffers.Columns.{fetched_shows, refetched_goes_stale}
use storm_byte_database.MariaDb.Output.Sending.{bound, execute-meant}
use storm_byte_database.MariaDb.Members.{MariaDb}
use storm_byte_database.MariaDb.Connection.{ssl_mode, do_connect}
use storm_byte_database.MariaDb.Connection.Lifecycle.{Settles, do_connect-closes}
use storm_byte_database.MariaDb.Construct.{construct, construct_logged}
use storm_byte_database.MariaDb.Construct.Preparing.{Makes, construct-Makes}
use storm_byte_database.MariaDb.Statement.Trimming.{IsPreparedOf}
use storm_byte_database.MariaDb.Examples.Objects.{
  signed32, signed64, reads_buffer, reads, reads-Documented, overwrite, take-overwrite,
  fetched_before, a_cell, one_row, object, prepared, narrow, b_cell,
}

execute-meant_example :
    let args = Value.unsigned_integer (pos 7) ∷ Value.text (text "ab") ∷ [] in
    (t : Stmt × List Call) × (map reads (bind_all_in (bound t)) ≡ map meant args)
    × ((execute (virtuals one_row vector_rows) args (prepared, [])).0
        ≡ (do_execute one_row vector_rows t).0)
    × (bound (execute (virtuals one_row vector_rows) args (prepared, [])).1 ≡ [])
execute-meant_example =
    execute-meant one_row vector_rows (Value.unsigned_integer (pos 7) ∷ Value.text (text "ab") ∷ [])
      (prepared, []) reads-Documented ((omega arith, omega arith), (tt, tt))

fetched_shows_example :
    let got = fetched overwrite a_cell narrow in
    let shown = (if refetches got then refetched overwrite got else got) in
    take shown.len shown.chars ≡ 97 ∷ 98 ∷ 99 ∷ []
fetched_shows_example = fetched_shows overwrite a_cell narrow take-overwrite refl refl refl refl

-- The value "x" is shown as "a".
refetched_goes_stale_example :
    take
      (fetched overwrite b_cell (refetched overwrite (fetched overwrite a_cell narrow))).len
      (fetched overwrite b_cell (refetched overwrite (fetched overwrite a_cell narrow))).chars
    ≡ take 1 (97 ∷ 98 ∷ 99 ∷ [])
refetched_goes_stale_example =
    refetched_goes_stale overwrite a_cell b_cell narrow take-overwrite refl (omega arith)

construct-Makes_example :
    let sql = text "INSERT INTO t VALUES (?); " in
    (q : Text) × IsPreparedOf sql q
    × Makes one_row 1
        (text "put")
        sql
        q
        []
        (construct one_row 1 (text "put") sql object).0
        (construct one_row 1 (text "put") sql object).1.env
    × Makes one_row 1
        (text "put")
        sql
        q
        []
        (construct_logged one_row 1 (text "put") sql object).0
        (construct_logged one_row 1 (text "put") sql object).1.env
construct-Makes_example =
    construct-Makes one_row 1 (text "put") (text "INSERT INTO t VALUES (?); ") object
