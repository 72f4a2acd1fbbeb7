-- ===== src/Row/Examples.antt =====
-- Rows at work.
use storm_byte_database.Prelude.{
  ◌≡◌, refl, text, some, none, [], ◌∷◌, text_eq, lookup, emplace, if◌then◌else◌,
}
use storm_byte_database.Prelude.Int.{pos}
use storm_byte_database.Exception.{Exception, ok, err}
use storm_byte_database.Value.{Value}
use storm_byte_database.Row.{
  Row, add, count, column, value_at, build_name_index, find_in, index_from,
}
use storm_byte_database.Row.Laws.{IsFresh, Finds, column-Finds, column-add}

-- Two columns of one name, with the index not built.
abbrev two : Row
two = record {
  columns =
      record { name = text "a"; value = Value.integer (pos 1) }
      ∷ record { name = text "a"; value = Value.null }
      ∷ [];
  name_index = none;
}

second_is_shadowed : (column (text "a") two).0 ≡ ok 0
unfolding column build_name_index find_in index_from text text_eq lookup emplace
second_is_shadowed = refl

missing : (column (text "b") two).0 ≡ err (Exception.column_not_found (text "b"))
unfolding column build_name_index find_in index_from text text_eq lookup emplace
missing = refl

column-Finds_example :
    Finds (text "a") two.columns (column (text "a") two).0
    × ((column (text "a") two).1.columns ≡ two.columns)
    × IsFresh (column (text "a") two).1
column-Finds_example = column-Finds (text "a") two tt

column-add_example :
    ((column (text "b") (add (text "b") Value.null two)).0 ≡ (elim (column (text "b") two).0 [
      | ok i ↦ ok i
      | err e ↦ if text_eq (text "b") (text "b") then ok (count two) else err e
    ]))
    × (value_at (add (text "b") Value.null two) (count two)
        ≡ some (record { name = text "b"; value = Value.null }))
column-add_example = column-add (text "b") (text "b") Value.null two tt
