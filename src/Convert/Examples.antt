-- ===== src/Convert/Examples.antt =====
-- Conversions at work.
use storm_byte_database.Prelude.{◌^◌, ◌≡◌, refl, true, false, arith, ◌-◌}
use storm_byte_database.Prelude.Int.{ℤ, pos, negsuc}
use storm_byte_database.Exception.{ok, err}
use storm_byte_database.Value.{ValueType, Double, finite, Value}
use storm_byte_database.Convert.{
  IntType, lowest, integral, floating, whole, real, convert_double, convert_integral,
  convert_numeric, cast_to, to_double, get, fractional, narrows, negative, mismatch, null_requested,
}
use storm_byte_database.Convert.Integers.{Exact}
use storm_byte_database.Convert.Doubles.{
  convert_double-Exact, double_roundtrip, convert_double_wild,
}
use storm_byte_database.Convert.Access.{get-Exact}

-- The cast of a double outside `intmax_t` on x86-64.
abbrev indefinite : Double → ℤ
indefinite x = negsuc (2 ^ 63 - 1)

too_big : get indefinite ValueType.integer (Value.long_integer (pos 2147483648)) ≡ err narrows
unfolding get convert_numeric convert_integral
too_big = refl

minus_one : get indefinite ValueType.unsigned_integer (Value.integer (negsuc 0)) ≡ err negative
unfolding get convert_numeric convert_integral
minus_one = refl

half : get indefinite ValueType.integer (Value.double (finite false 1 0 1)) ≡ err fractional
unfolding get convert_numeric convert_double
half = refl

no_text : get indefinite ValueType.text (Value.integer (pos 1)) ≡ err mismatch
unfolding get
no_text = refl

no_null : get indefinite ValueType.null Value.null ≡ err null_requested
unfolding get
no_null = refl

get-Exact_example :
    Exact IntType.unsigned_int
      (pos 7)
      (get indefinite ValueType.unsigned_integer (Value.long_integer (pos 7)))
get-Exact_example =
    get-Exact indefinite ValueType.unsigned_integer (Value.long_integer (pos 7)) refl refl
      (omega arith, omega arith)

convert_double-Exact_example :
    Exact IntType.int (negsuc 5) (convert_double indefinite IntType.int (finite true 12 0 1))
convert_double-Exact_example =
    convert_double-Exact indefinite IntType.int (finite true 12 0 1) (negsuc 5) refl
      (omega arith, omega arith)

double_roundtrip_example :
    (convert_numeric indefinite floating (whole IntType.int (pos 5))
      ≡ ok (Value.double (to_double (pos 5))))
    × (convert_numeric indefinite (integral IntType.int) (real (to_double (pos 5)))
        ≡ ok (cast_to IntType.int (pos 5)))
double_roundtrip_example =
    double_roundtrip indefinite IntType.int (pos 5) (omega arith, omega arith) (omega arith)

-- The double 2^64 is read as the lowest `long`.
convert_double_wild_example :
    convert_double indefinite IntType.long_int (finite false 1 64 0)
    ≡ ok (Value.long_integer (lowest IntType.long_int))
convert_double_wild_example =
    convert_double_wild indefinite (finite false 1 64 0) (pos (2 ^ 64)) (2 ^ 64, omega arith, refl)
      (λ h. omega (arith, h)) refl
