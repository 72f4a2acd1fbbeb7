-- ===== src/Postgres/Examples.antt =====
-- The PostgreSQL backend on a client that connects and answers one tuple of one integer field.
mod Lives
use storm_byte_database.Prelude.{
  List, Action, pure, Text, ℕ, ◌-◌, ◌^◌, ◌≡◌, refl, text, true, false, none, some, [], ◌∷◌, map,
  arith, ◌⊎◌,
}
use storm_byte_database.Prelude.Int.{ℤ, pos, negsuc}
use storm_byte_database.Prelude.Words.{c_string}
use storm_byte_database.Exception.{is_ok}
use storm_byte_database.Value.{Double, Value}
use storm_byte_database.Rows.{Rows, vector_rows}
use storm_byte_database.Statement.{execute}
use storm_byte_database.Trim.{IsTrimmed}
use storm_byte_database.Postgres.Connection.Preparing.{Prepares, create_stmt-Prepares}
use storm_byte_database.Database.{SslMode}
use storm_byte_database.Postgres.Client.{Param, dangling, executes_prepared, clears, Client}
use storm_byte_database.Postgres.Statement.{Stmt, create, bind_value, params, virtuals}
use storm_byte_database.Postgres.Statement.Binding.{render}
use storm_byte_database.Postgres.Statement.Again.{execute_again-sends}
use storm_byte_database.Postgres.Statement.Binding.{string_count, strings_of}
use storm_byte_database.Postgres.Statement.Sending.{execute-sends, second_text_dangles}
use storm_byte_database.Database.{disconnect}
use storm_byte_database.Database.Steady.{Use, prepares}
use storm_byte_database.Database.Lifetime.{Life, uses, live_all, Sound, life-settles}
use storm_byte_database.Postgres.Client.Counts.{given, finished}
use storm_byte_database.Postgres.Connection.Accounts.{Same, backend-Accounts}
use storm_byte_database.Postgres.Members.{Postgres}
use storm_byte_database.Postgres.Query.{do_silent_query, query}
use storm_byte_database.Postgres.Connection.{backend, create_stmt, is_query_end, do_connect}
use storm_byte_database.Postgres.Connection.Lifecycle.{
  owns, gives_handle, Settles, do_connect-Settles,
}
use storm_byte_database.Postgres.Connection.Results.{do_silent_query-query}

abbrev one_tuple : Client
one_tuple = record {
  connectdb = λ calls info. some 1;
  status_ok = λ calls h. true;
  error_message = λ calls h. none;
  exec = λ calls h sql. some 2;
  prepare = λ calls h name sql. some 2;
  exec_prepared = λ calls h name params. some 2;
  result_ok = λ r. true;
  result_error = λ r. none;
  ntuples = λ r. 1;
  nfields = λ r. 1;
  fname = λ r i. some (97 ∷ []);
  getisnull = λ r i j. false;
  ftype = λ r j. 23;
  getvalue = λ r i j. some (52 ∷ 50 ∷ 0 ∷ []);
  getlength = λ r i j. 2;
  unescape_bytea = λ s. none;
  stod = λ s. none;
}

abbrev object : Postgres
object = record {
  has_logger = true;
  prepared_stmts = [];
  connected = false;
  ssl_mode = SslMode.default;
  log = [];
  own = record { host = []; user = []; password = []; dbname = text "db"; conn = none };
  env = [];
}

abbrev connected : Postgres
connected = record object { connected = true; own = record object.own { conn = some 1 } }

-- A statement that has run with two strings before.
abbrev warm : Stmt
warm = record {
  name = text "put";
  query = text "INSERT INTO t VALUES ($1, $2)";
  conn = some 1;
  stmt_name = text "put";
  param_values = [];
  param_lengths = [];
  param_formats = [];
  strings = [];
  capacity = 2;
  array = 2;
  blobs = [];
}

abbrev wild : Double → ℤ
wild x = negsuc (2 ^ 63 - 1)

create_stmt-Prepares_example :
    (trimmed : Text) × IsTrimmed is_query_end (text "SELECT 1; ") trimmed
    × Prepares one_tuple 1
        (text "one")
        (text "SELECT 1; ")
        trimmed
        connected
        (create_stmt one_tuple (text "one") (text "SELECT 1; ") connected)
create_stmt-Prepares_example =
    create_stmt-Prepares one_tuple 1 (text "one") (text "SELECT 1; ") connected refl

execute-sends_example :
    let args = Value.integer (pos 7) ∷ Value.text (text "ab") ∷ [] in
    let after = (execute (virtuals one_tuple vector_rows) args (warm, [])).1.1 in
    let sent = executes_prepared 1 (c_string (text "put")) (map render args) ∷ [] in
    (after ≡ sent) ⊎ ((r : ℕ) × (after ≡ clears r ∷ sent))
unfolding string_count strings_of
execute-sends_example =
    execute-sends one_tuple vector_rows (Value.integer (pos 7) ∷ Value.text (text "ab") ∷ []) warm
      [] 1 refl (omega arith)

execute_again-sends_example :
    let args = Value.integer (pos 7) ∷ Value.null ∷ Value.text (text "ab") ∷ [] in
    let fresh = record (create (text "put") (text "INSERT")) { conn = some 1 } in
    let ran = (execute (virtuals one_tuple vector_rows) args (fresh, [])).1 in
    let after = (execute (virtuals one_tuple vector_rows) args ran).1.1 in
    let sent = executes_prepared 1 (c_string (text "put")) (map render args) ∷ ran.1 in
    (after ≡ sent) ⊎ ((r : ℕ) × (after ≡ clears r ∷ sent))
unfolding create
execute_again-sends_example =
    execute_again-sends one_tuple vector_rows
      (Value.integer (pos 7) ∷ Value.null ∷ Value.text (text "ab") ∷ [])
      (Value.integer (pos 7) ∷ Value.null ∷ Value.text (text "ab") ∷ [])
      (record (create (text "put") (text "INSERT")) { conn = some 1 }) [] 1 refl (omega arith)

second_text_dangles_example :
    params (
      bind_value 1
        (Value.text (98 ∷ []))
        (bind_value 0 (Value.text (97 ∷ [])) (create (text "put") (text "INSERT"))))
    ≡ dangling ∷ Param.text (c_string (98 ∷ [])) ∷ []
second_text_dangles_example =
    second_text_dangles (text "put") (text "INSERT") (97 ∷ []) (98 ∷ []) (omega arith)

do_connect-Settles_example :
    Settles one_tuple (gives_handle one_tuple object) object (do_connect one_tuple object)
do_connect-Settles_example = do_connect-Settles one_tuple object refl refl

do_silent_query-query_example :
    ((do_silent_query one_tuple (text "BEGIN;") object).0
      ≡ is_ok (query one_tuple vector_rows (text "BEGIN;") object).0)
    × ((do_silent_query one_tuple (text "BEGIN;") object).1.env
        ≡ (query one_tuple vector_rows (text "BEGIN;") object).1.env)
do_silent_query-query_example = do_silent_query-query one_tuple vector_rows (text "BEGIN;") object

abbrev hook : Action Postgres (Unit {0})
hook = pure tt

hook-Same : (db : Postgres) → Same one_tuple db (hook db).1
hook-Same db = (refl, refl, refl, refl)

abbrev life : List Life
life =
    Life.connects
    ∷ uses (prepares (text "put") (text "INSERT INTO t VALUES ($1)"))
    ∷ Life.connects
    ∷ uses (Use.executes (text "put") (Value.null ∷ []))
    ∷ Life.disconnects
    ∷ Life.connects
    ∷ []

life-settles_example :
    let b = backend one_tuple hook hook hook vector_rows in
    Sound owns (given one_tuple) finished (live_all b life object)
    × (given one_tuple (disconnect b (live_all b life object)).1.env
        ≡ finished (disconnect b (live_all b life object)).1.env)
unfolding given finished
life-settles_example =
    life-settles owns (given one_tuple) finished
      (backend-Accounts one_tuple hook hook hook vector_rows hook-Same hook-Same hook-Same) life
      object (refl, refl)
