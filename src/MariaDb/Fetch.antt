-- ===== src/MariaDb/Fetch.antt =====
-- lib/private/StormByte/database/mariadb/result_fetch.hxx
pub mod Stored
use storm_byte_database.Prelude.{
  ℕ, zero, suc, ◌+◌, Text, text, Bool, true, false, not, ◌&&◌, ◌||◌, Option, none, some, List, [],
  ◌∷◌, ◌==◌, if◌then◌else◌,
}
use storm_byte_database.Prelude.Int.{ℤ}
use storm_byte_database.Prelude.Words.{c_string, take}
use storm_byte_database.Exception.{Exception, ok, err}
use storm_byte_database.Value.{Value, Double, finite}
use storm_byte_database.Row.{Row}
use storm_byte_database.Collect.{collect}
use storm_byte_database.Columns.{fill_row}
use storm_byte_database.Rows.{Rows, ExpectedRows, Iterable}
use storm_byte_database.Decimal.{stoll_or_zero, integer_column}
use storm_byte_database.MariaDb.Client.{FieldType, Field, Client}

-- `field ? field->name : nullptr`, then `colName ? colName : ""`
abbrev text_or_empty : Option Text → Text
text_or_empty none = []
text_or_empty (some s) = c_string s

pub column_name : Option Field → Text
column_name none = []
column_name (some f) = text_or_empty f.name

-- The type that the `switch` is on.
abbrev pub type_of_field : Option Field → FieldType
type_of_field none = FieldType.string
type_of_field (some f) = f.type

abbrev pub unsigned_field : Option Field → Bool
unsigned_field none = false
unsigned_field (some f) = f.is_unsigned

abbrev pub length_of_field : Option Field → ℕ
length_of_field none = 0
length_of_field (some f) = f.length

-- `field && field->charsetnr == 63`
abbrev pub is_binary : Option Field → Bool
is_binary none = false
is_binary (some f) = f.charset == 63

-- `TINYINT(1)`
abbrev pub is_flag : Option Field → Bool
is_flag none = false
is_flag (some f) = not f.is_unsigned && (f.length == 1)

-- Whether the first character is not '0'.
first_nonzero : List ℕ → Bool
first_nonzero [] = true
first_nonzero (b ∷ bs) = not (b == 48)

abbrev pub real_or_zero : Option Double → Double
real_or_zero none = finite false 0 0 0
real_or_zero (some x) = x

module _ (c : Client) where
  text_or_blob : Option Field → List ℕ → Value
  text_or_blob f s = if is_binary f then Value.blob s else Value.text s

  -- The `switch` over the type of the field, on the bytes at `row[c]` and the first `len` of them.
  typed_value : Option Field → FieldType → List ℕ → Text → Value
  unfolding text_or_blob first_nonzero
  typed_value f FieldType.tiny all s =
      if is_flag f then Value.boolean (first_nonzero all) else integer_column s
  typed_value f FieldType.short all s = integer_column s
  typed_value f FieldType.long all s = integer_column s
  typed_value f FieldType.int24 all s = integer_column s
  typed_value f FieldType.longlong all s = Value.long_integer (stoll_or_zero s)
  typed_value f FieldType.float all s = Value.double (real_or_zero (c.stod s))
  typed_value f FieldType.double all s = Value.double (real_or_zero (c.stod s))
  typed_value f FieldType.decimal all s = Value.double (real_or_zero (c.stod s))
  typed_value f FieldType.newdecimal all s = Value.double (real_or_zero (c.stod s))
  typed_value f FieldType.tiny_blob all s = text_or_blob f s
  typed_value f FieldType.medium_blob all s = text_or_blob f s
  typed_value f FieldType.long_blob all s = text_or_blob f s
  typed_value f FieldType.blob all s = text_or_blob f s
  typed_value f FieldType.var_string all s = Value.text s
  typed_value f FieldType.string all s = Value.text s
  typed_value f FieldType.varchar all s = Value.text s
  typed_value f FieldType.null all s = Value.text s
  typed_value f FieldType.other all s = Value.text s

  stored_value : Option Field → Option (List ℕ) → ℕ → Value
  unfolding typed_value
  stored_value f none len = Value.null
  stored_value f (some all) len = typed_value f (type_of_field f) all (take len all)

  pub column_value : ℕ → ℕ → ℕ → Value
  unfolding stored_value
  column_value res r i = stored_value (c.field res i) (c.row_value res r i) (c.row_length res r i)

  pub fetch_stored : ℕ → ℕ → Row
  fetch_stored res r =
      fill_row (λ i. column_name (c.field res i)) (column_value res r) (c.num_fields res)

  module _ (it : Iterable) where
    -- `StepResults`
    pub step_results : Option ℕ → ExpectedRows
    step_results none = err (Exception.execute_error (text "Invalid MYSQL_RES provided."))
    step_results (some res) = ok (collect it (fetch_stored res) (c.num_rows res))
