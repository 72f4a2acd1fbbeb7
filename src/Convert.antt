-- ===== src/Convert.antt =====
-- lib/public/StormByte/database/value.hxx: `Get<T>` and the checked numeric conversions, for a
-- platform with 32-bit `int` and 64-bit `long`. A `T` that `Get<T>` returns is shown as the
-- alternative of the variant that holds a `T`.
pub mod Integers
pub mod Doubles
pub mod Access
mod Examples
use storm_byte_database.Prelude.{
  ℕ, zero, suc, ◌+◌, ◌-◌, ◌*◌, ◌/◌, ◌%◌, ◌^◌, Bool, true, false, not, ◌&&◌, ◌||◌, Option, none,
  some, ltb, ◌==◌, if◌then◌else◌,
}
use storm_byte_database.Prelude.Int.{ℤ, pos, negsuc, ltb_ℤ}
use storm_byte_database.Exception.{Exception, Result, ok, err}
use storm_byte_database.Value.{
  ValueType, code, Double, nan, infinite, finite, Value, type_of, is_null, int_eq,
}

-- The integral types of the variant.
pub data IntType : Type 0 where
  int unsigned_int long_int unsigned_long bool : IntType

-- `std::is_signed_v`
abbrev pub is_signed : IntType → Bool
is_signed IntType.int = true
is_signed IntType.long_int = true
is_signed _ = false

-- `std::numeric_limits<T>::lowest()` and `max()`
abbrev pub lowest : IntType → ℤ
lowest IntType.int = negsuc (2 ^ 31 - 1)
lowest IntType.long_int = negsuc (2 ^ 63 - 1)
lowest _ = pos 0

abbrev pub max_of : IntType → ℤ
max_of IntType.int = pos (2 ^ 31 - 1)
max_of IntType.unsigned_int = pos (2 ^ 32 - 1)
max_of IntType.long_int = pos (2 ^ 63 - 1)
max_of IntType.unsigned_long = pos (2 ^ 64 - 1)
max_of IntType.bool = pos 1

-- `static_cast<To>` of a number in the range of `To`, as a value.
unfoldable pub cast_to : IntType → ℤ → Value
cast_to IntType.int z = Value.integer z
cast_to IntType.unsigned_int z = Value.unsigned_integer z
cast_to IntType.long_int z = Value.long_integer z
cast_to IntType.unsigned_long z = Value.unsigned_long_integer z
cast_to IntType.bool z = Value.boolean (not (int_eq z (pos 0)))

abbrev pub narrows : Exception
narrows = Exception.wrong_value_type "Integer conversion would overflow/narrow."

abbrev pub negative : Exception
negative = Exception.wrong_value_type "Negative value cannot be converted to unsigned."

-- `convert_numeric` from an integral type to an integral type.
unfoldable pub convert_integral : IntType → IntType → ℤ → Result Value
convert_integral from to v =
    if is_signed from
    then (if is_signed to
        then if ltb_ℤ v (lowest to) || ltb_ℤ (max_of to) v then err narrows else ok (cast_to to v)
        else if ltb_ℤ v (pos 0)
        then err negative
        else if ltb_ℤ (max_of to) v
        then err narrows
        else ok (cast_to to v))
    else if is_signed to
    then (if ltb_ℤ (max_of to) v then err narrows else ok (cast_to to v))
    else if ltb_ℤ (max_of to) v
    then err narrows
    else ok (cast_to to v)

-- `static_cast<double>` of an integer rounds to 53 bits, ties to even.
excess : ℕ → ℕ → ℕ
excess zero n = 0
excess (suc fuel) n = elim (ltb n (2 ^ 53)) [ true ↦ 0 | false ↦ suc (excess fuel (n / 2)) ]

round_even : ℕ → ℕ → ℕ
round_even n zero = n
round_even n (suc e) =
    let q = n / 2 ^ suc e in
    let r = n % 2 ^ suc e in if ltb r (2 ^ e) || ((r == 2 ^ e) && (q % 2 == 0)) then q else q + 1

nat_to_double : Bool → ℕ → Double
unfolding excess round_even
nat_to_double s n = let e = excess 11 n in finite s (round_even n e) e 0

pub to_double : ℤ → Double
unfolding nat_to_double
to_double (pos n) = nat_to_double false n
to_double (negsuc n) = nat_to_double true (suc n)

-- `std::isfinite`, and `std::trunc(d) == d`
abbrev pub is_finite : Double → Bool
is_finite (finite s m u d) = true
is_finite _ = false

abbrev pub is_whole : Double → Bool
is_whole (finite s m u d) = (m * 2 ^ u) % 2 ^ d == 0
is_whole _ = false

-- The integer part, with no bound.
pub truncated : Double → ℤ
truncated (finite false m u d) = pos (m * 2 ^ u / 2 ^ d)
truncated (finite true m u d) =
    let n = m * 2 ^ u / 2 ^ d in if n == 0 then pos 0 else negsuc (n - 1)
truncated _ = pos 0

abbrev pub in_intmax : ℤ → Bool
in_intmax z = not (ltb_ℤ z (lowest IntType.long_int) || ltb_ℤ (max_of IntType.long_int) z)

-- `static_cast<std::intmax_t>(d)`. Outside the range of `intmax_t` the language leaves the result
-- open: it is what `wild` says.
pub to_intmax : (Double → ℤ) → Double → ℤ
unfolding truncated
to_intmax wild x = if in_intmax (truncated x) then truncated x else wild x

abbrev pub float_narrows : Exception
float_narrows = Exception.wrong_value_type "Floating to integer conversion would overflow/narrow."

abbrev pub fractional : Exception
fractional = Exception.wrong_value_type "Floating value has fractional part; would lose data."

abbrev pub not_finite : Exception
not_finite = Exception.wrong_value_type "Non-finite floating conversion to integer."

-- `convert_numeric` from `double` to an integral type.
pub convert_double : (Double → ℤ) → IntType → Double → Result Value
convert_double wild to x =
    if not (is_finite x)
    then err not_finite
    else if not (is_whole x)
    then err fractional
    else let tmp = to_intmax wild x in
      if is_signed to
      then (if ltb_ℤ tmp (lowest to) || ltb_ℤ (max_of to) tmp
          then err float_narrows
          else ok (cast_to to tmp))
      else if ltb_ℤ tmp (pos 0)
      then err negative
      else if ltb_ℤ (max_of to) tmp
      then err float_narrows
      else ok (cast_to to tmp)

-- The arithmetic alternatives.
pub data NumType : Type 0 where
  integral : IntType → NumType
  floating : NumType

pub data Number : Type 0 where
  whole : IntType → ℤ → Number
  real : Double → Number

abbrev pub num_type : ValueType → Option NumType
num_type ValueType.integer = some (integral IntType.int)
num_type ValueType.unsigned_integer = some (integral IntType.unsigned_int)
num_type ValueType.long_integer = some (integral IntType.long_int)
num_type ValueType.unsigned_long_integer = some (integral IntType.unsigned_long)
num_type ValueType.boolean = some (integral IntType.bool)
num_type ValueType.double = some floating
num_type _ = none

abbrev pub number : Value → Option Number
number (Value.integer z) = some (whole IntType.int z)
number (Value.unsigned_integer z) = some (whole IntType.unsigned_int z)
number (Value.long_integer z) = some (whole IntType.long_int z)
number (Value.unsigned_long_integer z) = some (whole IntType.unsigned_long z)
number (Value.boolean b) = some (whole IntType.bool (if b then pos 1 else pos 0))
number (Value.double x) = some (real x)
number _ = none

-- `convert_numeric`
unfoldable pub convert_numeric : (Double → ℤ) → NumType → Number → Result Value
convert_numeric wild (integral to) (whole from z) = convert_integral from to z
convert_numeric wild floating (whole from z) = ok (Value.double (to_double z))
convert_numeric wild (integral to) (real x) = convert_double wild to x
convert_numeric wild floating (real x) = ok (Value.double x)

abbrev pub null_requested : Exception
null_requested = Exception.wrong_value_type "Requested type does not match stored type (null)."

abbrev pub mismatch : Exception
mismatch = Exception.wrong_value_type "Requested type does not match stored type."

unfoldable pub convert_or_mismatch : (Double → ℤ) → Option NumType → Option Number → Result Value
unfolding convert_numeric
convert_or_mismatch wild (some to) (some n) = convert_numeric wild to n
convert_or_mismatch wild _ _ = err mismatch

-- `Value::Get<T>()`: null never converts, not even to the type of null.
unfoldable pub get : (Double → ℤ) → ValueType → Value → Result Value
unfolding type_of is_null convert_or_mismatch
get wild to v =
    if is_null v
    then err null_requested
    else if code (type_of v) == code to
    then ok v
    else convert_or_mismatch wild (num_type to) (number v)
