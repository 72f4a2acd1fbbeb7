-- ===== src/Sqlite/Examples/Objects.antt =====
-- A client that opens, prepares and answers one row of one column, and SQLite objects on it.
use storm_byte_database.Prelude.{
  ℕ, refl, Text, text, Bool, true, false, Option, none, some, List, [], ◌∷◌, Action, pure, arith,
}
use storm_byte_database.Prelude.Int.{pos}
use storm_byte_database.Value.{Value, nan}
use storm_byte_database.Rows.{vector_rows}
use storm_byte_database.Database.{
  Db, Backend, Level, debug, write_log, do_prepare_stmt, execute_stmt, connect, disconnect,
}
use storm_byte_database.Database.Lifecycle.{Keeps}
use storm_byte_database.Sqlite.Client.{
  Call, steps, StepCode, row, done, ColumnType, Client, FiniteResults, Env,
}
use storm_byte_database.Sqlite.Statement.{Stmt}
use storm_byte_database.Sqlite.Members.{Own, Sqlite}
use storm_byte_database.Sqlite.Connection.{backend}
use storm_byte_database.Sqlite.Connection.Lifecycle.{owns}

-- A statement answers one row, then is done.
abbrev pub next : List Call → ℕ → StepCode
next (steps t ∷ calls) s = done
next calls s = row

abbrev pub left : List Call → ℕ → ℕ
left (steps t ∷ calls) s = 0
left calls s = 1

abbrev pub one_row : Client
one_row = record {
  initialize = λ calls. true;
  open_db = λ calls path. (true, some 1);
  prepare = λ calls h sql. (true, some 2);
  exec = λ calls h sql. (true, none);
  step = next;
  errmsg = λ calls h. text "not an error";
  db_handle = λ calls s. some 1;
  column_count = λ calls s. 1;
  column_name = λ calls s i. some (text "a");
  column_type = λ calls s i. ColumnType.integer;
  column_int64 = λ calls s i. pos 5;
  column_double = λ calls s i. nan;
  column_text = λ calls s i. none;
  column_blob = λ calls s i. none;
  column_bytes = λ calls s i. pos 0;
  rows_left = left;
}

pub one_row-FiniteResults : FiniteResults one_row
one_row-FiniteResults [] s e = omega arith
one_row-FiniteResults (steps t ∷ calls) s e = cc
one_row-FiniteResults (Call.initializes ∷ calls) s e = omega arith
one_row-FiniteResults (Call.shuts_down ∷ calls) s e = omega arith
one_row-FiniteResults (Call.frees_message ∷ calls) s e = omega arith
one_row-FiniteResults (Call.opens p ∷ calls) s e = omega arith
one_row-FiniteResults (Call.closes h ∷ calls) s e = omega arith
one_row-FiniteResults (Call.sets_busy_timeout h n ∷ calls) s e = omega arith
one_row-FiniteResults (Call.prepares h q ∷ calls) s e = omega arith
one_row-FiniteResults (Call.executes h q ∷ calls) s e = omega arith
one_row-FiniteResults (Call.finalizes h ∷ calls) s e = omega arith
one_row-FiniteResults (Call.clears_bindings h ∷ calls) s e = omega arith
one_row-FiniteResults (Call.resets h ∷ calls) s e = omega arith
one_row-FiniteResults (Call.binds h i p ∷ calls) s e = omega arith

abbrev pub hook : Action Sqlite (Unit {0})
hook = pure tt

pub hook-Keeps : (db : Sqlite) → Keeps owns db (hook db).1
hook-Keeps db = (refl, refl)

abbrev pub sqlite : Backend Stmt Own Env
sqlite = backend one_row hook hook vector_rows

-- A prepared statement, an object that holds it, and one that never connected.
abbrev pub prepared : Stmt
prepared = record { name = text "put"; query = text "INSERT INTO t VALUES (?)"; handle = some 2 }

abbrev pub object : Option ℕ → Bool → List (Text × Stmt) → Sqlite
object h connected stmts = record {
  has_logger = false;
  prepared_stmts = stmts;
  connected = connected;
  ssl_mode = storm_byte_database.Database.SslMode.default;
  log = [];
  own = record { file = text "db"; database = h };
  env = record { refcount = 1; calls = [] };
}

abbrev pub holder : Sqlite
holder = object (some 1) true ((text "put", prepared) ∷ [])

abbrev pub stranger : Sqlite
stranger = object none false []

abbrev pub arguments : List Value
arguments = Value.integer (pos 7) ∷ Value.null ∷ []
