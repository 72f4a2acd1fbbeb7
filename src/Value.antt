-- ===== src/Value.antt =====
-- lib/public/StormByte/database/value.hxx and the variant of typedefs.hxx: the type-erased SQL
-- value and its equality.
pub mod Equality
mod Examples
use storm_byte_database.Prelude.{
  ℕ, ◌*◌, ◌^◌, Text, text_eq, Bool, true, false, not, ◌&&◌, ◌||◌, List, ◌==◌, if◌then◌else◌,
}
use storm_byte_database.Prelude.Int.{ℤ, pos, negsuc}

-- `enum class Type`
pub data ValueType : Type 0 where
  null integer unsigned_integer long_integer unsigned_long_integer double text blob boolean :
      ValueType

-- Its underlying value.
abbrev pub code : ValueType → ℕ
code ValueType.null = 0
code ValueType.integer = 1
code ValueType.unsigned_integer = 2
code ValueType.long_integer = 3
code ValueType.unsigned_long_integer = 4
code ValueType.double = 5
code ValueType.text = 6
code ValueType.blob = 7
code ValueType.boolean = 8

-- A `double`: `finite s m u d` is m * 2^u / 2^d, negative if `s` is true.
pub data Double : Type 0 where
  nan : Double
  infinite : Bool → Double
  finite : Bool → ℕ → ℕ → ℕ → Double

-- One constructor for each C++ constructor; `m_type` is read off it.
pub data Value : Type 0 where
  null : Value
  integer unsigned_integer long_integer unsigned_long_integer : ℤ → Value
  double : Double → Value
  text : Text → Value
  blob : List ℕ → Value
  boolean : Bool → Value

-- `Value::Type()`
unfoldable pub type_of : Value → ValueType
type_of Value.null = ValueType.null
type_of (Value.integer z) = ValueType.integer
type_of (Value.unsigned_integer z) = ValueType.unsigned_integer
type_of (Value.long_integer z) = ValueType.long_integer
type_of (Value.unsigned_long_integer z) = ValueType.unsigned_long_integer
type_of (Value.double x) = ValueType.double
type_of (Value.text s) = ValueType.text
type_of (Value.blob b) = ValueType.blob
type_of (Value.boolean b) = ValueType.boolean

-- `Value::IsNull()`
unfoldable pub is_null : Value → Bool
unfolding type_of
is_null v = code (type_of v) == code ValueType.null

-- `==` of two doubles: a NaN differs from itself, and the two zeros are equal.
pub double_eq : Double → Double → Bool
double_eq (infinite s) (infinite t) = if s then t else not t
double_eq (finite s m u d) (finite t n v e) =
    let a = m * 2 ^ u * 2 ^ e in
    let b = n * 2 ^ v * 2 ^ d in (a == b) && ((if s then t else not t) || (a == 0))
double_eq _ _ = false

abbrev pub int_eq : ℤ → ℤ → Bool
int_eq (pos m) (pos n) = m == n
int_eq (negsuc m) (negsuc n) = m == n
int_eq _ _ = false

-- `operator==`: the same alternative, and equal contents.
pub value_eq : Value → Value → Bool
value_eq Value.null Value.null = true
value_eq (Value.integer a) (Value.integer b) = int_eq a b
value_eq (Value.unsigned_integer a) (Value.unsigned_integer b) = int_eq a b
value_eq (Value.long_integer a) (Value.long_integer b) = int_eq a b
value_eq (Value.unsigned_long_integer a) (Value.unsigned_long_integer b) = int_eq a b
value_eq (Value.double a) (Value.double b) = double_eq a b
value_eq (Value.text a) (Value.text b) = text_eq a b
value_eq (Value.blob a) (Value.blob b) = text_eq a b
value_eq (Value.boolean a) (Value.boolean b) = if a then b else not b
value_eq _ _ = false

-- `operator!=`
pub value_ne : Value → Value → Bool
unfolding value_eq
value_ne a b = not (value_eq a b)
