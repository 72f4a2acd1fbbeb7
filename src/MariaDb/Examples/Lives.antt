-- ===== src/MariaDb/Examples/Lives.antt =====
-- The life of a MariaDB object, from connecting to its destruction.
use storm_byte_database.Prelude.{◌≡◌, refl, List, [], ◌∷◌, text, Action, pure}
use storm_byte_database.Value.{Value}
use storm_byte_database.Rows.{vector_rows}
use storm_byte_database.Database.{IsolationLevel}
use storm_byte_database.Database.Steady.{queries, prepares, executes, begins, rolls_back}
use storm_byte_database.Database.Lifetime.{Life, connects, disconnects, uses, live_all}
use storm_byte_database.MariaDb.Client.Counts.{stmts_closed, stmts_given}
use storm_byte_database.MariaDb.Members.{MariaDb}
use storm_byte_database.MariaDb.Connection.{ssl_mode, backend, destroy}
use storm_byte_database.MariaDb.Connection.Handles.{Even, destroy_closes}
use storm_byte_database.MariaDb.Examples.Objects.{one_row, object}

abbrev hook : Action MariaDb (Unit {0})
hook = pure tt

hook-Even : (db : MariaDb) → Even one_row db (hook db).1
hook-Even db = refl

-- A name is prepared twice, and the object is connected when it is destroyed.
abbrev life : List Life
life =
    connects
    ∷ uses (prepares (text "put") (text "INSERT INTO t VALUES (?);"))
    ∷ uses (prepares (text "put") (text "INSERT INTO u VALUES (?)"))
    ∷ uses (begins IsolationLevel.serializable)
    ∷ uses (executes (text "put") (Value.null ∷ []))
    ∷ uses rolls_back
    ∷ disconnects
    ∷ connects
    ∷ uses (prepares (text "get") (text "SELECT 2"))
    ∷ uses (queries (text "SELECT 1"))
    ∷ []

destroy_closes_example :
    let b = backend one_row ssl_mode hook hook hook vector_rows in
    let db' = (destroy one_row ssl_mode hook hook hook vector_rows (live_all b life object)).1 in
    (db'.prepared_stmts ≡ []) × (stmts_given one_row db'.env ≡ stmts_closed db'.env)
unfolding stmts_given stmts_closed
destroy_closes_example =
    destroy_closes one_row ssl_mode vector_rows hook hook hook hook-Even hook-Even hook-Even
      (λ db. refl) life object refl
