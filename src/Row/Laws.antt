-- ===== src/Row/Laws.antt =====
-- Access by name: the cached index never goes stale, and finds the first column of a name.
use storm_byte_database.Prelude.{
  ℕ, ◌≡◌, refl, Text, text_eq, Option, none, some, List, [], arith, get_elem?, get_elem?-append,
  lookup, lookup-nil, if◌then◌else◌,
}
use storm_byte_database.Exception.{Exception, Result, ok, err}
use storm_byte_database.Value.{Value}
use storm_byte_database.Row.{
  NamedValue, Row, copy_of, copy_assign, moved_from, move_assign, add, count, build_name_index,
  find_in, or_not_found, column, value_at, assign,
}
use storm_byte_database.Row.Index.{
  first_named, lookup-index_from, first_named-append, Holds, first_named-Holds,
}

-- An index that the row holds agrees with its columns.
abbrev pub IndexAgrees : Option (List (Text × ℕ)) → List NamedValue → Type 0
IndexAgrees none cs = Unit {0}
IndexAgrees (some m) cs = (name : Text) → lookup name m ≡ first_named 0 name cs

abbrev pub IsFresh : Row → Type 0
IsFresh row = IndexAgrees row.name_index row.columns

module _ (cs : List NamedValue) where
  abbrev row_of : Option (List (Text × ℕ)) → Row
  row_of ix = record { columns = cs; name_index = ix }

  find_in-built :
      (ix : Option (List (Text × ℕ))) (name : Text)
      → IndexAgrees ix cs
      → find_in (build_name_index (row_of ix)).name_index name ≡ first_named 0 name cs
  unfolding build_name_index find_in
  find_in-built none name h = rw (lookup-index_from 0 cs [] name, lookup-nil name) refl
  find_in-built (some m) name h = h name

  built-IsFresh :
      (ix : Option (List (Text × ℕ))) → IndexAgrees ix cs → IsFresh (build_name_index (row_of ix))
  unfolding build_name_index
  built-IsFresh none h = λ name. rw (lookup-index_from 0 cs [] name, lookup-nil name) refl
  built-IsFresh (some m) h = h

  columns-built : (ix : Option (List (Text × ℕ))) → (build_name_index (row_of ix)).columns ≡ cs
  unfolding build_name_index
  columns-built none = refl
  columns-built (some m) = refl

-- What access by name promises: the first column of that name, or the exception.
abbrev pub Finds : Text → List NamedValue → Result ℕ → Type 0
Finds name cs (ok i) = (first_named 0 name cs ≡ some i) × Holds name (get_elem? cs i)
Finds name cs (err e) = (first_named 0 name cs ≡ none) × (e ≡ Exception.column_not_found name)

not_found-Finds :
    (name : Text) (cs : List NamedValue) (o : Option ℕ)
    → first_named 0 name cs ≡ o
    → Finds name cs (or_not_found name o)
not_found-Finds name cs none e = (e, refl)
not_found-Finds name cs (some i) e = (e, first_named-Holds 0 i i name cs e (omega arith))

-- On a row whose name index, if built, agrees with its columns, access by name answers the first column of
-- that name or throws ColumnNotFound, leaves the columns alone and the index in agreement.
pub column-Finds :
    (name : Text) (row : Row)
    → IsFresh row
    → Finds name row.columns (column name row).0
      × ((column name row).1.columns ≡ row.columns)
      × IsFresh (column name row).1
unfolding column
column-Finds name row h = (
  rw (find_in-built row.columns row.name_index name h) (not_found-Finds name row.columns _ refl),
  columns-built row.columns row.name_index,
  built-IsFresh row.columns row.name_index h,
)

-- The operations on a row: access by name, appending, a write through a reference, copies.
pub data Op : Type 0 where
  access : Text → Op
  append : Text → Value → Op
  write : ℕ → Value → Op
  copies : Op
  copies_from moves_from : Row → Op
  moves_out : Op

pub perform : Op → Row → Row
perform (access name) row = (column name row).1
perform (append name v) row = add name v row
perform (write i v) row = assign i v row
perform copies row = copy_of row
perform (copies_from other) row = copy_assign row other
perform (moves_from other) row = (move_assign row other).0
perform moves_out row = moved_from row

abbrev pub FreshSource : Op → Type 0
FreshSource (copies_from other) = IsFresh other
FreshSource (moves_from other) = IsFresh other
FreshSource _ = Unit {0}

-- What an access answers, by the first column of the name.
column_result :
    (name : Text) (row : Row)
    → IsFresh row
    → (column name row).0 ≡ or_not_found name (first_named 0 name row.columns)
unfolding column
column_result name row h = rw (find_in-built row.columns row.name_index name h)

-- On a row whose name index agrees with its columns, after add every name answers as before, except that a
-- name that was absent and is the new one refers to the new column, which holds the given name and value.
pub column-add :
    (name other : Text) (v : Value) (row : Row)
    → IsFresh row
    → ((column other (add name v row)).0 ≡ (elim (column other row).0 [
      | ok i ↦ ok i
      | err e ↦ if text_eq name other then ok (count row) else err e
    ]))
      × (value_at (add name v row) (count row) ≡ some (record { name = name; value = v }))
unfolding add count value_at
column-add name other v row h = (
  rw (column_result other (add name v row) tt, column_result other row h)
      (ground (arith, first_named-append 0 other row.columns (record { name = name; value = v }))),
  get_elem?-append row.columns _,
)
