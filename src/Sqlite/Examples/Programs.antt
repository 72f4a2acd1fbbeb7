-- ===== src/Sqlite/Examples/Programs.antt =====
-- Statements prepared and executed by name on an SQLite object.
use storm_byte_database.Prelude.{◌≡◌, refl, some, List, [], ◌∷◌, Text, text, text_eq}
use storm_byte_database.Value.{Value}
use storm_byte_database.Rows.{vector_rows}
use storm_byte_database.Database.Programs.{
  Op, prepares, executes, registered, or_else, run_ops, brings, first_made, made, outcomes,
  run_ops-first,
}
use storm_byte_database.Sqlite.Statement.{Stmt}
use storm_byte_database.Sqlite.Connection.{backend, create_stmt, created}
use storm_byte_database.Sqlite.Connection.Registry.{backend-Creates}
use storm_byte_database.Sqlite.Connection.Memory.{backend-Asks}
use storm_byte_database.Sqlite.Examples.Objects.{one_row, hook, sqlite, holder}

-- A second statement of the same name is no other statement.
abbrev program : List Op
program =
    prepares (text "get") (text "SELECT 1")
    ∷ prepares (text "get") (text "SELECT 2")
    ∷ executes (text "get") (Value.null ∷ [])
    ∷ []

abbrev query_of : Stmt → Text
query_of p = p.query

first_text : first_made (text "get") (outcomes sqlite program holder) ≡ some (text "SELECT 1")
unfolding first_made brings outcomes made backend create_stmt created text text_eq
first_text = refl

run_ops-first_example :
    registered query_of (text "get") (run_ops sqlite program holder)
    ≡ or_else
        (registered query_of (text "get") holder)
        (first_made (text "get") (outcomes sqlite program holder))
run_ops-first_example =
    run_ops-first (backend-Creates one_row hook hook vector_rows)
      (backend-Asks one_row hook hook vector_rows) (text "get") program holder
