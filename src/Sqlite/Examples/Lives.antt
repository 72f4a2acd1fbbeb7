-- ===== src/Sqlite/Examples/Lives.antt =====
-- The life of an SQLite object, from connecting to its destruction.
use storm_byte_database.Prelude.{◌≡◌, refl, List, [], ◌∷◌, text}
use storm_byte_database.Value.{Value}
use storm_byte_database.Rows.{vector_rows}
use storm_byte_database.Database.{IsolationLevel}
use storm_byte_database.Database.Steady.{queries, prepares, executes, begins, commits}
use storm_byte_database.Database.Lifetime.{Life, connects, disconnects, uses, live_all}
use storm_byte_database.Sqlite.Client.{finalized}
use storm_byte_database.Sqlite.Client.Counts.{prepared}
use storm_byte_database.Sqlite.Members.{Sqlite}
use storm_byte_database.Sqlite.Connection.{destroy}
use storm_byte_database.Sqlite.Connection.Handles.{Even, finalized_by, prepared_by}
use storm_byte_database.Sqlite.Connection.Handles.Release.{destroy_finalizes}
use storm_byte_database.Sqlite.Examples.Objects.{one_row, hook, sqlite, stranger}

hook-Even : (db : Sqlite) → Even one_row db (hook db).1
hook-Even db = refl

-- A name is prepared twice, and the object is connected when it is destroyed.
abbrev life : List Life
life =
    connects
    ∷ uses (prepares (text "put") (text "INSERT INTO t VALUES (?)"))
    ∷ uses (prepares (text "put") (text "INSERT INTO u VALUES (?)"))
    ∷ uses (begins IsolationLevel.default)
    ∷ uses (executes (text "put") (Value.null ∷ []))
    ∷ uses commits
    ∷ uses (queries (text "SELECT 1"))
    ∷ disconnects
    ∷ connects
    ∷ uses (prepares (text "get") (text "SELECT 2"))
    ∷ []

destroy_finalizes_example :
    let db' = (destroy one_row hook hook vector_rows (live_all sqlite life stranger)).1 in
    (db'.prepared_stmts ≡ []) × (prepared_by one_row db'.env ≡ finalized_by db'.env)
unfolding prepared finalized
destroy_finalizes_example =
    destroy_finalizes one_row vector_rows hook hook hook-Even hook-Even life stranger refl
