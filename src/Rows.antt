-- ===== src/Rows.antt =====
-- lib/public/StormByte/database/rows.hxx: the rows of a result in order. `add` is inherited from the
-- base library's `Iterable`, which is not part of this repository: it is a parameter with its law.
use storm_byte_database.Prelude.{ℕ, ◌≡◌, refl, List, [], ◌∷◌, ◌++◌, length}
use storm_byte_database.Exception.{Result}
use storm_byte_database.Row.{Row}

abbrev pub Rows : Type 0
Rows = List Row

-- `ExpectedRows`
abbrev pub ExpectedRows : Type 0
ExpectedRows = Result Rows

pub record Iterable : Type 0 where
  pub add : Rows → Row → Rows
  pub add_appends : (rows : Rows) (row : Row) → add rows row ≡ rows ++ row ∷ []

-- `Rows::Count`
pub rows_count : Rows → ℕ
rows_count rows = length rows

-- An `Iterable` over a vector.
pub vector_appends : (rows : Rows) (row : Row) → rows ++ row ∷ [] ≡ rows ++ row ∷ []
vector_appends rows row = refl

abbrev pub vector_rows : Iterable
vector_rows = record { add = λ rows row. rows ++ row ∷ []; add_appends = vector_appends }
