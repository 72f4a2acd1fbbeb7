-- ===== src/Convert/Access.antt =====
-- `Get<T>` on every alternative.
use storm_byte_database.Prelude.{◌≡◌, some, arith, if◌then◌else◌}
use storm_byte_database.Prelude.Int.{ℤ, pos}
use storm_byte_database.Exception.{ok}
use storm_byte_database.Value.{ValueType, Double, Value, type_of}
use storm_byte_database.Convert.{
  IntType, integral, whole, num_type, number, cast_to, convert_numeric, convert_integral,
  convert_double, get,
}
use storm_byte_database.Convert.Integers.{InRange, Exact, convert_integral-Exact}

-- Get<T> from one integral alternative to another gives the same number as a T where T has it and throws
-- where T does not, if the stored number is in the range of its own type.
pub get-Exact :
    (wild : Double → ℤ) (to : ValueType) (v : Value) {from t : IntType} {z : ℤ}
    → number v ≡ some (whole from z)
    → num_type to ≡ some (integral t)
    → InRange from z
    → Exact t z (get wild to v)
unfolding get
get-Exact wild ValueType.null (Value.integer y) n m h = cc
get-Exact wild _ (Value.integer y) {t} n m h =
    ground (arith, convert_integral-Exact IntType.int t y)
get-Exact wild ValueType.null (Value.unsigned_integer y) n m h = cc
get-Exact wild _ (Value.unsigned_integer y) {t} n m h =
    ground (arith, convert_integral-Exact IntType.unsigned_int t y)
get-Exact wild ValueType.null (Value.long_integer y) n m h = cc
get-Exact wild _ (Value.long_integer y) {t} n m h =
    ground (arith, convert_integral-Exact IntType.long_int t y)
get-Exact wild ValueType.null (Value.unsigned_long_integer y) n m h = cc
get-Exact wild _ (Value.unsigned_long_integer y) {t} n m h =
    ground (arith, convert_integral-Exact IntType.unsigned_long t y)
get-Exact wild ValueType.null (Value.boolean b) n m h = cc
get-Exact wild _ (Value.boolean b) {t} n m h =
    ground (arith, convert_integral-Exact IntType.bool t (if b then pos 1 else pos 0))
get-Exact wild _ Value.null n m h = cc
get-Exact wild _ (Value.double x) n m h = cc
get-Exact wild _ (Value.text s) n m h = cc
get-Exact wild _ (Value.blob b) n m h = cc

-- What Get<T> gives is a T, whatever was stored.
type_of-get :
    (wild : Double → ℤ) (to : ValueType) (v w : Value) → get wild to v ≡ ok w → type_of w ≡ to
unfolding get convert_numeric convert_integral convert_double cast_to
type_of-get wild ValueType.null v w h = ground arith
type_of-get wild _ v w h = ground arith
