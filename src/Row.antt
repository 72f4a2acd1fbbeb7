-- ===== src/Row.antt =====
-- lib/public/StormByte/database/named_value.hxx, row.hxx and row.cxx: a result row with its lazy
-- index from column names to positions. A reference into the row is the position that it refers to.
pub mod Index
pub mod Laws
mod Examples
use storm_byte_database.Prelude.{
  ℕ, zero, suc, Text, text_eq, Bool, not, ◌&&◌, Option, none, some, List, [], ◌∷◌, ◌++◌, length,
  get_elem?, set, lookup, emplace,
}
use storm_byte_database.Exception.{Exception, Result, ok, err}
use storm_byte_database.Value.{Value, value_eq}

pub record NamedValue : Type 0 where
  pub name : Text
  pub value : Value

-- `NamedValue::operator==`
pub named_eq : NamedValue → NamedValue → Bool
named_eq a b = text_eq a.name b.name && value_eq a.value b.value

-- `NamedValue::operator!=`
pub named_ne : NamedValue → NamedValue → Bool
unfolding named_eq
named_ne a b = not (named_eq a b)

pub record Row : Type 0 where
  pub columns : List NamedValue
  pub name_index : Option (List (Text × ℕ))

-- The default constructor.
unfoldable pub empty_row : Row
empty_row = record { columns = []; name_index = none }

-- The copy constructor, and copy assignment to another row: the cached index comes along.
pub copy_of : Row → Row
copy_of other = record { columns = other.columns; name_index = other.name_index }

pub copy_assign : Row → Row → Row
copy_assign self other = record self { columns = other.columns; name_index = other.name_index }

-- The move constructor and move assignment, which are defaulted: the new object holds what the old one did, and
-- the old one is left with no columns; an index that was there is still there, and empty.
moved_index : Option (List (Text × ℕ)) → Option (List (Text × ℕ))
moved_index none = none
moved_index (some index) = some []

pub moved_from : Row → Row
unfolding moved_index
moved_from row = record { columns = []; name_index = moved_index row.name_index }

pub move_assign : Row → Row → Row × Row
unfolding moved_from
move_assign self other =
    (record self { columns = other.columns; name_index = other.name_index }, moved_from other)

-- `Row::add` drops the index.
unfoldable pub add : Text → Value → Row → Row
add name value row = record {
  columns = row.columns ++ record { name = name; value = value } ∷ [];
  name_index = none;
}

-- `Row::Count`
unfoldable pub count : Row → ℕ
count row = length row.columns

-- The loop of `BuildNameIndex`, from position `i` on.
pub index_from : ℕ → List NamedValue → List (Text × ℕ) → List (Text × ℕ)
index_from i [] index = index
index_from i (c ∷ cs) index = index_from (suc i) cs (emplace c.name i index)

-- `Row::BuildNameIndex`
pub build_name_index : Row → Row
build_name_index row = elim row.name_index [
  | some index ↦ row
  | none ↦ record row { name_index = some (index_from 0 row.columns []) }
]

-- Looks a name up in the index that the row holds, which is not null here.
pub find_in : Option (List (Text × ℕ)) → Text → Option ℕ
find_in none name = none
find_in (some index) name = lookup name index

abbrev pub or_not_found : Text → Option ℕ → Result ℕ
or_not_found name none = err (Exception.column_not_found name)
or_not_found name (some i) = ok i

-- `Row::operator[](name) const &`: the position of the column, and the row with its index built.
pub column : Text → Row → Result ℕ × Row
column name row = let r = build_name_index row in (or_not_found name (find_in r.name_index name), r)

-- What a reference reads; `none` is an access past the end.
pub value_at : Row → ℕ → Option NamedValue
value_at row i = get_elem? row.columns i

-- A write through the reference of `Row::operator[](name) &`: the name stays.
pub assign : ℕ → Value → Row → Row
assign i v row = elim (get_elem? row.columns i) [
  | none ↦ row
  | some c ↦ record row { columns = set row.columns i (record c { value = v }) }
]

-- `Row::operator[](name) &&` on an expiring row.
pub take_value : Text → Row → Result (Option NamedValue)
take_value name row =
    let r = build_name_index row in
    elim (find_in r.name_index name) [
      | none ↦ err (Exception.column_not_found name)
      | some i ↦ ok (get_elem? r.columns i)
    ]
