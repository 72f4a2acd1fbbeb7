-- ===== src/Postgres/Fetch.antt =====
-- lib/private/StormByte/database/postgres/result_fetch.hxx
pub mod Tuples
use storm_byte_database.Prelude.{
  ℕ, zero, suc, ◌+◌, Text, text, text_eq, Bool, true, false, ◌&&◌, ◌||◌, Option, none, some, List,
  [], ◌∷◌, map, ◌==◌, leb, if◌then◌else◌,
}
use storm_byte_database.Prelude.Words.{c_string, take}
use storm_byte_database.Exception.{Exception, ok, err}
use storm_byte_database.Value.{Value, Double, finite}
use storm_byte_database.Row.{Row}
use storm_byte_database.Collect.{collect}
use storm_byte_database.Columns.{fill_row}
use storm_byte_database.Rows.{Rows, ExpectedRows, Iterable}
use storm_byte_database.Decimal.{integer_column}
use storm_byte_database.Postgres.Client.{Client}

-- `p ? p : ""`
abbrev pub name_or_empty : Option Text → Text
name_or_empty none = []
name_or_empty (some s) = c_string s

-- `std::tolower` in the "C" locale.
abbrev pub to_lower : ℕ → ℕ
to_lower c = if leb 65 c && leb c 90 then c + 32 else c

-- The Boolean that a value shows.
boolean_column : Option (List ℕ) → Bool
boolean_column none = false
boolean_column (some []) = false
boolean_column (some (c ∷ s)) =
    ((c == 116) || (c == 49)) || text_eq (map to_lower (c_string (c ∷ s))) (text "true")

-- `std::string(val, vall)`
abbrev chars : Option (List ℕ) → ℕ → Text
chars none n = []
chars (some bytes) n = take n bytes

abbrev real_or_zero : Option Double → Double
real_or_zero none = finite false 0 0 0
real_or_zero (some x) = x

abbrev bytes_or_none : Option (List ℕ) → List ℕ
bytes_or_none none = []
bytes_or_none (some bytes) = bytes

module _ (c : Client) where
  blob_column : Option (List ℕ) → List ℕ
  blob_column none = []
  blob_column (some bytes) = bytes_or_none (c.unescape_bytea (c_string bytes))

  -- The `switch` over the type's object identifier.
  typed_column : ℕ → Option (List ℕ) → ℕ → Value
  unfolding boolean_column blob_column
  typed_column oid val n =
      if oid == 16
      then Value.boolean (boolean_column val)
      else if (oid == 20) || ((oid == 21) || (oid == 23))
      then integer_column (chars val n)
      else if (oid == 700) || (oid == 701)
      then Value.double (real_or_zero (c.stod (chars val n)))
      else if oid == 17
      then Value.blob (blob_column val)
      else Value.text (chars val n)

  pub column_value : ℕ → ℕ → ℕ → Value
  unfolding typed_column
  column_value res r i =
      if c.getisnull res r i
      then Value.null
      else typed_column (c.ftype res i) (c.getvalue res r i) (c.getlength res r i)

  pub fetch_tuple : ℕ → ℕ → Row
  fetch_tuple res r =
      fill_row (λ i. name_or_empty (c.fname res i)) (column_value res r) (c.nfields res)

  pub result_message : Option Text → Text
  result_message none = text "Unknown PG error"
  result_message (some s) = c_string s

  module _ (it : Iterable) where
    -- `StepResults`
    pub step_results : Option ℕ → ExpectedRows
    unfolding result_message
    step_results none = err (Exception.execute_error (text "Invalid PGresult provided."))
    step_results (some res) =
        if c.result_ok res
        then ok (collect it (fetch_tuple res) (c.ntuples res))
        else err (Exception.execute_error (result_message (c.result_error res)))
