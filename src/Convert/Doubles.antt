-- ===== src/Convert/Doubles.antt =====
-- The conversions to and from `double`.
use native.Mathlib.Nat.{one-le-pow, zero-div, zero-mod, mul-div_cancel, mul-mod_left}
use storm_byte_database.Prelude.{ℕ, zero, suc, ◌+◌, ◌*◌, ◌^◌, ◌<◌, ◌≡◌, refl, true, false, arith}
use storm_byte_database.Prelude.Int.{ℤ, pos, negsuc, pos_part, neg_part}
use storm_byte_database.Exception.{ok}
use storm_byte_database.Value.{Double, nan, infinite, finite, Value}
use storm_byte_database.Convert.{
  IntType, is_finite, is_whole, lowest, excess, round_even, convert_numeric, integral, floating,
  whole, real, truncated, to_intmax, convert_double, cast_to, to_double,
}
use storm_byte_database.Convert.Integers.{InRange, Exact, number-cast_to}

-- The double has this integer for its value.
abbrev pub Denotes : Double → ℤ → Type 0
Denotes (finite false m u d) z = (k : ℕ) × (m * 2 ^ u ≡ k * 2 ^ d) × (z ≡ pos k)
Denotes (finite true m u d) (pos n) = (m * 2 ^ u ≡ 0) × (n ≡ 0)
Denotes (finite true m u d) (negsuc n) = m * 2 ^ u ≡ suc n * 2 ^ d
Denotes _ z = ⊥

pow_pos : (d : ℕ) → 0 < 2 ^ d
pow_pos d = one-le-pow d 2 (omega arith)

truncated-Denotes : (x : Double) (z : ℤ) → Denotes x z → truncated x ≡ z
unfolding truncated
truncated-Denotes (finite false m u d) z (k, e, r) = rw (e, mul-div_cancel k (pow_pos d), r) refl
truncated-Denotes (finite true m u d) (pos n) (e, r) = rw (e, zero-div (2 ^ d), r) refl
truncated-Denotes (finite true m u d) (negsuc n) e =
    rw (e, mul-div_cancel (suc n) (pow_pos d)) (ground arith)
truncated-Denotes nan z h = elim h [ ]
truncated-Denotes (infinite s) z h = elim h [ ]

whole_of_Denotes : (x : Double) (z : ℤ) → Denotes x z → (is_finite x ≡ true) × (is_whole x ≡ true)
whole_of_Denotes (finite false m u d) z (k, e, r) = (refl, rw (e, mul-mod_left k (2 ^ d)) refl)
whole_of_Denotes (finite true m u d) (pos n) (e, r) = (refl, rw (e, zero-mod (2 ^ d)) refl)
whole_of_Denotes (finite true m u d) (negsuc n) e =
    (refl, rw (e, mul-mod_left (suc n) (2 ^ d)) refl)
whole_of_Denotes nan z h = elim h [ ]
whole_of_Denotes (infinite s) z h = elim h [ ]

to_intmax-Denotes :
    (wild : Double → ℤ) (x : Double) (z : ℤ)
    → Denotes x z
    → InRange IntType.long_int z
    → to_intmax wild x ≡ z
unfolding to_intmax
to_intmax-Denotes wild x z h r = ground (arith, truncated-Denotes x z h)

-- A double whose value is an integer of 64 bits converts to an integral type where that type has the
-- integer, to this integer, and is refused elsewhere.
pub convert_double-Exact :
    (wild : Double → ℤ) (t : IntType) (x : Double) (z : ℤ)
    → Denotes x z
    → InRange IntType.long_int z
    → Exact t z (convert_double wild t x)
unfolding convert_double
convert_double-Exact wild t x z h r =
    ground (arith, to_intmax-Denotes wild x z h r, whole_of_Denotes x z h, number-cast_to t z)

excess_small : (fuel n : ℕ) → n < 2 ^ 53 → excess fuel n ≡ 0
unfolding excess
excess_small zero n h = refl
excess_small (suc fuel) n h = ground arith

-- Integers below 2^53 become doubles exactly.
pub Denotes-to_double : (z : ℤ) → pos_part z + neg_part z < 2 ^ 53 → Denotes (to_double z) z
unfolding to_double round_even
Denotes-to_double (pos n) h = rw (excess_small 11 n (omega arith)) (n, refl, refl)
Denotes-to_double (negsuc n) h = rw (excess_small 11 (suc n) (omega arith)) refl

-- An integral value in the range of its type and below 2^53 in size that is read as a double and then as
-- its type again is what it was.
pub double_roundtrip :
    (wild : Double → ℤ) (t : IntType) (z : ℤ)
    → InRange t z
    → pos_part z + neg_part z < 2 ^ 53
    → convert_numeric wild floating (whole t z) ≡ ok (Value.double (to_double z))
      × (convert_numeric wild (integral t) (real (to_double z)) ≡ ok (cast_to t z))
unfolding convert_numeric convert_double
double_roundtrip wild t z h small = (
  refl,
  ground (
    arith,
    to_intmax-Denotes wild (to_double z) z (Denotes-to_double z small) (omega arith),
    whole_of_Denotes (to_double z) z (Denotes-to_double z small),
  ),
)

-- A double whose value is an integer outside 64 bits is read as the lowest long, and not refused, where the
-- cast of such a double gives the lowest intmax_t.
pub convert_double_wild :
    (wild : Double → ℤ) (x : Double) (z : ℤ)
    → Denotes x z
    → ¬ InRange IntType.long_int z
    → wild x ≡ lowest IntType.long_int
    → convert_double wild IntType.long_int x ≡ ok (Value.long_integer (lowest IntType.long_int))
unfolding convert_double to_intmax cast_to
convert_double_wild wild x z h out w =
    ground (arith, truncated-Denotes x z h, whole_of_Denotes x z h)
