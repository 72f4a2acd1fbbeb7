-- ===== src/Convert/Integers.antt =====
-- What the conversions between integral types promise: exact values, and refusal of all others.
use storm_byte_database.Prelude.{◌≡◌, refl, some, arith}
use storm_byte_database.Prelude.Int.{ℤ, ◌≤ℤ◌}
use storm_byte_database.Exception.{Result, ok, err}
use storm_byte_database.Value.{Value}
use storm_byte_database.Convert.{IntType, whole, number, lowest, max_of, cast_to, convert_integral}

-- The numbers that a C++ integer of this type takes.
abbrev pub InRange : IntType → ℤ → Type 0
InRange t z = (lowest t ≤ℤ z) × (z ≤ℤ max_of t)

-- A value in range survives the cast.
pub number-cast_to : (t : IntType) (z : ℤ) → InRange t z → number (cast_to t z) ≡ some (whole t z)
unfolding cast_to
number-cast_to IntType.int z h = refl
number-cast_to IntType.unsigned_int z h = refl
number-cast_to IntType.long_int z h = refl
number-cast_to IntType.unsigned_long z h = refl
number-cast_to IntType.bool z h = ground arith

-- What a conversion of `z` to `t` may answer: the same number as a `t`, exactly where `t` has it.
abbrev pub Exact : IntType → ℤ → Result Value → Type 0
Exact t z (ok v) = InRange t z × (number v ≡ some (whole t z))
Exact t z (err e) = ¬ InRange t z

-- A conversion from one integral type to another succeeds exactly where the target type has the number,
-- and then gives that number; the source value is in the range of its own type.
pub convert_integral-Exact :
    (from to : IntType) (z : ℤ) → InRange from z → Exact to z (convert_integral from to z)
unfolding convert_integral
convert_integral-Exact IntType.int to z h = ground (arith, number-cast_to to z)
convert_integral-Exact IntType.unsigned_int to z h = ground (arith, number-cast_to to z)
convert_integral-Exact IntType.long_int to z h = ground (arith, number-cast_to to z)
convert_integral-Exact IntType.unsigned_long to z h = ground (arith, number-cast_to to z)
convert_integral-Exact IntType.bool to z h = ground (arith, number-cast_to to z)
