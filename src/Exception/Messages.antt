-- ===== src/Exception/Messages.antt =====
-- lib/public/StormByte/database/exception.hxx: the texts of the exceptions.
use storm_byte_database.Prelude.{Text, text, ◌++◌, ◌≡◌, refl}
use storm_byte_database.Prelude.Int.{pos}
use storm_byte_database.Decimal.{to_string}
use storm_byte_database.Exception.{
  Exception, wrong_value_type, column_not_found, out_of_bounds, unknown_stmt, execute_error,
}

-- The text that reaches it, as `std::format` makes it of the arguments.
pub message : Exception → Text
message (wrong_value_type m) = text m
message (column_not_found c) = text "Column '" ++ (c ++ text "' not found")
message (out_of_bounds p n) =
    text "Position " ++ (to_string p ++ (text " is out of bounds for size " ++ to_string (pos n)))
message (unknown_stmt n) = text "Statement '" ++ (n ++ text "' not found")
message (execute_error e) = text "Error executing query: " ++ e

not_found_message : message (column_not_found (text "id")) ≡ text "Column 'id' not found"
unfolding message text
not_found_message = refl
