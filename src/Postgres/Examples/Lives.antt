-- ===== src/Postgres/Examples/Lives.antt =====
-- The life of a PostgreSQL object, and the results that it is given.
use storm_byte_database.Prelude.{◌≡◌, refl, List, [], ◌∷◌, text}
use storm_byte_database.Value.{Value}
use storm_byte_database.Rows.{vector_rows}
use storm_byte_database.Database.{IsolationLevel}
use storm_byte_database.Database.Steady.{queries, silently, prepares, executes, begins, commits}
use storm_byte_database.Database.Lifetime.{Life, connects, disconnects, uses, live_all}
use storm_byte_database.Postgres.Client.Counts.{results_given, results_cleared}
use storm_byte_database.Postgres.Members.{Postgres}
use storm_byte_database.Postgres.Connection.{backend}
use storm_byte_database.Postgres.Connection.Clearing.{Even, life_clears}
use storm_byte_database.Postgres.Examples.{one_tuple, hook, object}

hook-Even : (db : Postgres) → Even one_tuple db (hook db).1
hook-Even db = refl

abbrev busy_life : List Life
busy_life =
    connects
    ∷ uses (prepares (text "put") (text "INSERT INTO t VALUES ($1);"))
    ∷ uses (begins IsolationLevel.default)
    ∷ uses (executes (text "put") (Value.null ∷ []))
    ∷ uses commits
    ∷ uses (queries (text "SELECT 1"))
    ∷ uses (silently (text "VACUUM"))
    ∷ disconnects
    ∷ []

life_clears_example :
    let db' = live_all (backend one_tuple hook hook hook vector_rows) busy_life object in
    results_given one_tuple db'.env ≡ results_cleared db'.env
unfolding results_given results_cleared
life_clears_example =
    life_clears one_tuple vector_rows hook hook hook hook-Even hook-Even hook-Even busy_life object
      refl
