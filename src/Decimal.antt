-- ===== src/Decimal.antt =====
-- `std::to_string`, `std::stoll` and `std::isspace` in the "C" locale, as the PostgreSQL and MariaDB
-- backends use them to send and read numbers as text.
pub mod RoundTrip
use storm_byte_database.Prelude.{
  ℕ, zero, suc, ◌+◌, ◌-◌, ◌*◌, ◌/◌, ◌%◌, ◌^◌, Text, text, Bool, true, false, ◌&&◌, ◌||◌, Option,
  none, some, List, [], ◌∷◌, ◌++◌, ◌==◌, ltb, leb, if◌then◌else◌, replicate, length,
}
use storm_byte_database.Prelude.Int.{ℤ, pos, negsuc}
use storm_byte_database.Value.{Value, Double, nan, infinite, finite}
use storm_byte_database.Columns.{narrowest}

-- The characters that `isspace` takes.
abbrev pub is_space : ℕ → Bool
is_space c = (c == 32) || (leb 9 c && leb c 13)

abbrev pub is_digit : ℕ → Bool
is_digit c = leb 48 c && leb c 57

-- The decimal digits, on fuel; each step has a smaller number, so the number is fuel enough.
digits_on : ℕ → ℕ → Text
digits_on zero n = []
digits_on (suc fuel) n = elim (ltb n 10) [
  | true ↦ (48 + n) ∷ []
  | false ↦ digits_on fuel (n / 10) ++ (48 + n % 10) ∷ []
]

pub digits : ℕ → Text
unfolding digits_on
digits n = digits_on (suc n) n

-- `std::to_string` of an integer.
pub to_string : ℤ → Text
unfolding digits
to_string (pos n) = digits n
to_string (negsuc n) = 45 ∷ digits (suc n)

-- `std::to_string` of a double: `%f`, six digits after the point, rounded half to even.
rounded : ℕ → ℕ → ℕ
rounded n d =
    let q = n / d in
    let r = n % d in if ltb (2 * r) d || ((2 * r == d) && (q % 2 == 0)) then q else q + 1

fixed : ℕ → Text
unfolding digits
fixed q =
    let low = digits (q % 1000000) in
    digits (q / 1000000) ++ 46 ∷ (replicate (6 - length low) 48 ++ low)

minus : Bool → Text → Text
minus s t = if s then 45 ∷ t else t

pub double_to_string : Double → Text
unfolding rounded fixed minus
double_to_string nan = text "nan"
double_to_string (infinite s) = minus s (text "inf")
double_to_string (finite s m u d) = minus s (fixed (rounded (m * 2 ^ u * 1000000) (2 ^ d)))

-- The number that the leading digits make, after those that were read.
pub read : ℕ → Text → ℕ
read acc [] = acc
read acc (c ∷ s) = elim (is_digit c) [ true ↦ read (acc * 10 + (c - 48)) s | false ↦ acc ]

-- Beyond 64 bits `stoll` throws.
bounded : Bool → ℕ → Option ℤ
bounded false n = if ltb n (2 ^ 63) then some (pos n) else none
bounded true n =
    if n == 0 then some (pos 0) else if leb n (2 ^ 63) then some (negsuc (n - 1)) else none

-- What stands behind the sign; without a digit `stoll` throws.
unsigned_part : Bool → Text → Option ℤ
unfolding read bounded
unsigned_part s [] = none
unsigned_part s (c ∷ t) = if is_digit c then bounded s (read 0 (c ∷ t)) else none

signed_part : Text → Option ℤ
unfolding unsigned_part
signed_part [] = none
signed_part (c ∷ t) =
    if c == 45
    then unsigned_part true t
    else if c == 43
    then unsigned_part false t
    else unsigned_part false (c ∷ t)

skip_spaces : Text → Text
skip_spaces [] = []
skip_spaces (c ∷ t) = elim (is_space c) [ true ↦ skip_spaces t | false ↦ c ∷ t ]

-- `std::stoll`; `none` is an exception.
pub stoll : Text → Option ℤ
unfolding signed_part skip_spaces
stoll s = signed_part (skip_spaces s)

-- `try { v = std::stoll(s); } catch (...) { v = 0; }`
abbrev or_zero : Option ℤ → ℤ
or_zero none = pos 0
or_zero (some z) = z

pub stoll_or_zero : Text → ℤ
unfolding stoll
stoll_or_zero s = or_zero (stoll s)

-- An integer column that arrives as text.
pub integer_column : Text → Value
unfolding stoll_or_zero
integer_column s = narrowest (stoll_or_zero s)
