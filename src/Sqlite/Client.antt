-- ===== src/Sqlite/Client.antt =====
-- The SQLite C library as the backend sees it: the calls that change something, and its answers, which are
-- parameters that may depend on all calls so far. The globals of sqlite3.cxx stand beside the calls.
pub mod Counts
use storm_byte_database.Prelude.{ℕ, some, [], suc, ◌<◌, ◌≡◌, Text, Bool, Option, List, ◌∷◌}
use storm_byte_database.Prelude.Int.{ℤ}
use storm_byte_database.Value.{Double}

-- What `sqlite3_bind_*` is given. A blob is the bytes behind its pointer and its size.
pub data Param : Type 0 where
  null : Param
  int int64 : ℤ → Param
  double : Double → Param
  text : Text → Param
  blob : Option (List ℕ) → ℕ → Param

pub data Call : Type 0 where
  initializes shuts_down frees_message : Call
  opens : Text → Call
  closes : ℕ → Call
  sets_busy_timeout : Option ℕ → ℕ → Call
  prepares executes : Option ℕ → Text → Call
  finalizes : Option ℕ → Call
  steps clears_bindings resets : ℕ → Call
  binds : ℕ → ℕ → Param → Call

-- `sqlite3_step`: `SQLITE_ROW`, `SQLITE_DONE`, or an error.
pub data StepCode : Type 0 where
  row done failed : StepCode

pub data ColumnType : Type 0 where
  integer float text blob null other : ColumnType

-- The answers. A Boolean is whether the code is `SQLITE_OK`; a handle is a number, or null. The calls
-- so far are listed newest first, the answered one not included.
pub record Client : Type 0 where
  pub initialize : List Call → Bool
  pub open_db : List Call → Text → Bool × Option ℕ
  pub prepare : List Call → Option ℕ → Text → Bool × Option ℕ
  pub exec : List Call → Option ℕ → Text → Bool × Option Text
  pub step : List Call → ℕ → StepCode
  pub errmsg : List Call → Option ℕ → Text
  pub db_handle : List Call → ℕ → Option ℕ
  pub column_count : List Call → ℕ → ℕ
  pub column_name : List Call → ℕ → ℕ → Option Text
  pub column_type : List Call → ℕ → ℕ → ColumnType
  pub column_int64 : List Call → ℕ → ℕ → ℤ
  pub column_double : List Call → ℕ → ℕ → Double
  pub column_text : List Call → ℕ → ℕ → Option Text
  pub column_blob : List Call → ℕ → ℕ → Option (List ℕ)
  pub column_bytes : List Call → ℕ → ℕ → ℤ
  pub rows_left : List Call → ℕ → ℕ

-- A result is finite: each row that is stepped to leaves fewer.
abbrev pub FiniteResults : Client → Type 0
FiniteResults c =
    (calls : List Call) (s : ℕ)
    → c.step calls s ≡ row
    → c.rows_left (steps s ∷ calls) s < c.rows_left calls s

-- `g_sqlite_refcount`, and the calls, newest first.
pub record Env : Type 0 where
  pub refcount : ℕ
  pub calls : List Call

-- How many statements were finalized.
unfoldable pub finalized : List Call → ℕ
finalized [] = 0
finalized (finalizes (some s) ∷ calls) = suc (finalized calls)
finalized (_ ∷ calls) = finalized calls
