-- ===== src/Postgres/Client.antt =====
-- libpq as the backend sees it: the calls that change something, and its answers, which are parameters.
-- A connection may answer depending on all calls so far; a result does not change.
pub mod Counts
use storm_byte_database.Prelude.{ℕ, Text, Bool, Option, List}
use storm_byte_database.Value.{Double}

-- What libpq reads of a parameter: nothing for a null pointer, a C string in the text format, as many
-- bytes as its length says in the binary format, and `dangling` where the pointer refers to storage that
-- is gone.
pub data Param : Type 0 where
  null dangling : Param
  text : Text → Param
  binary : List ℕ → Param

pub data Call : Type 0 where
  connects : Text → Call
  finishes sets_notice_processor clears frees : ℕ → Call
  executes : ℕ → Text → Call
  prepares : ℕ → Text → Text → Call
  executes_prepared : ℕ → Text → List Param → Call

-- The answers; a handle is a number, or null. The calls so far are listed newest first, the answered
-- one not included.
pub record Client : Type 0 where
  pub connectdb : List Call → Text → Option ℕ
  pub status_ok : List Call → ℕ → Bool
  pub error_message : List Call → ℕ → Option Text
  pub exec : List Call → ℕ → Text → Option ℕ
  pub prepare : List Call → ℕ → Text → Text → Option ℕ
  pub exec_prepared : List Call → ℕ → Text → List Param → Option ℕ
  -- The status is `PGRES_TUPLES_OK` or `PGRES_COMMAND_OK`.
  pub result_ok : ℕ → Bool
  pub result_error : ℕ → Option Text
  pub ntuples : ℕ → ℕ
  pub nfields : ℕ → ℕ
  pub fname : ℕ → ℕ → Option Text
  pub getisnull : ℕ → ℕ → ℕ → Bool
  pub ftype : ℕ → ℕ → ℕ
  -- The bytes behind the pointer, those of the value first.
  pub getvalue : ℕ → ℕ → ℕ → Option (List ℕ)
  pub getlength : ℕ → ℕ → ℕ → ℕ
  pub unescape_bytea : List ℕ → Option (List ℕ)
  -- `strtod` of the C library; `none` where `std::stod` throws.
  pub stod : Text → Option Double
