-- ===== src/Sqlite/Fetch.antt =====
-- lib/private/StormByte/database/sqlite/result_fetch.hxx
pub mod Steps
pub mod Idle
use storm_byte_database.Prelude.{
  ℕ, zero, suc, ◌+◌, Text, text, Bool, true, false, ◌&&◌, ◌||◌, Option, none, some, List, [], ◌∷◌,
  is_some, if◌then◌else◌,
}
use storm_byte_database.Prelude.Int.{ℤ, pos, pos_part, ltb_ℤ}
use storm_byte_database.Prelude.Words.{c_string, take}
use storm_byte_database.Exception.{Exception, ok, err}
use storm_byte_database.Value.{Value}
use storm_byte_database.Row.{Row}
use storm_byte_database.Columns.{narrowest, fill_row}
use storm_byte_database.Rows.{Rows, ExpectedRows, Iterable}
use storm_byte_database.Sqlite.Client.{Call, steps, StepCode, row, done, failed, ColumnType, Client}

-- `colName ? colName : ""`
abbrev pub name_or_empty : Option Text → Text
name_or_empty none = []
name_or_empty (some s) = c_string s

-- `blobVec.assign(blobData, blobData + blobSize)` if there is something to copy.
pub blob_of : Option (List ℕ) → ℤ → List ℕ
blob_of none size = []
blob_of (some bytes) size = if ltb_ℤ (pos 0) size then take (pos_part size) bytes else []

module _ (c : Client) where
  -- The `switch` over `sqlite3_column_type`.
  pub column_value : List Call → ℕ → ℕ → Value
  unfolding blob_of
  column_value calls s i = elim (c.column_type calls s i) [
    | ColumnType.integer ↦ narrowest (c.column_int64 calls s i)
    | ColumnType.float ↦ Value.double (c.column_double calls s i)
    | ColumnType.text ↦ Value.text (name_or_empty (c.column_text calls s i))
    | ColumnType.blob ↦ Value.blob (blob_of (c.column_blob calls s i) (c.column_bytes calls s i))
    | ColumnType.null ↦ Value.null
    | ColumnType.other ↦ Value.null
  ]

  pub fetch_row : List Call → ℕ → Row
  fetch_row calls s =
      fill_row (λ i. name_or_empty (c.column_name calls s i)) (column_value calls s)
        (c.column_count calls s)

  -- The error behind the loop.
  pub step_error : List Call → ℕ → Exception
  step_error calls s = elim (c.db_handle calls s) [
    | none ↦ Exception.execute_error (text "Unknown SQLite error")
    | some h ↦ Exception.execute_error (c.errmsg calls (some h))
  ]

  module _ (it : Iterable) where
    -- The `while` loop, on fuel; with the client's bound for fuel it ends by its test.
    step_loop : ℕ → ℕ → Rows → List Call → ExpectedRows × List Call
    step_loop zero s rows calls = (ok rows, calls)
    step_loop (suc fuel) s rows calls = elim (c.step calls s) [
      | row ↦ step_loop fuel s (it.add rows (fetch_row (steps s ∷ calls) s)) (steps s ∷ calls)
      | done ↦ (ok rows, steps s ∷ calls)
      | failed ↦ (err (step_error (steps s ∷ calls) s), steps s ∷ calls)
    ]

    -- `StepResults`
    pub step_results : Option ℕ → List Call → ExpectedRows × List Call
    unfolding step_loop
    step_results none calls =
        (err (Exception.execute_error (text "Invalid SQLite statement provided.")), calls)
    step_results (some s) calls = step_loop (suc (c.rows_left calls s)) s [] calls
