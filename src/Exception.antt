-- ===== src/Exception.antt =====
-- lib/public/StormByte/database/exception.hxx: the exceptions of the library as values, and
-- `Expected<T, E>` as a result.
mod Messages
use storm_byte_database.Prelude.{ℕ, String, Text, text, ◌++◌, Bool, true, false}
use storm_byte_database.Prelude.Int.{ℤ}

-- The class that is thrown or returned, with what its constructor is given.
pub data Exception : Type 0 where
  wrong_value_type : String → Exception
  column_not_found : Text → Exception
  out_of_bounds : ℤ → ℕ → Exception
  unknown_stmt execute_error : Text → Exception

-- The component that reaches the constructor of the base library's exception.
pub component : Exception → Text
component (wrong_value_type m) = text "Database::" ++ text "WrongValueType: "
component (column_not_found c) = text "Database::" ++ text "ColumnNotFound: "
component (out_of_bounds p n) = text "Database::" ++ text "OutOfBounds: "
component (unknown_stmt n) = text "Database::" ++ (text "Query::" ++ text "PreparedSTMT: ")
component (execute_error e) = text "Database::" ++ (text "Query::" ++ text "Execute: ")

pub data Result {ℓ} (A : Type ℓ) : Type ℓ where
  ok : A → Result A
  err : Exception → Result A

abbrev pub is_ok {ℓ} : {A : Type ℓ} → Result A → Bool
is_ok (ok a) = true
is_ok (err e) = false
