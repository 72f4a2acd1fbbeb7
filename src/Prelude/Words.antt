-- ===== src/Prelude/Words.antt =====
-- Machine integers and C strings.
use Prim.Native.Nat.{ℕ, zero, suc, ◌-◌, ◌^◌}
use mathlib.Core.List.{List, [], ◌∷◌}
use storm_byte_database.Prelude.Tests.{ltb, ◌==◌, if◌then◌else◌}
use storm_byte_database.Prelude.Lists.{length}
use mathlib.Core.Path.{◌≡◌, refl, ap}
use storm_byte_database.Prelude.Int.{ℤ, pos, negsuc}

-- The signed integer of `w` bits with this bit pattern.
abbrev pub as_signed : ℕ → ℕ → ℤ
as_signed w n = if ltb n (2 ^ (w - 1)) then pos n else negsuc (2 ^ w - n - 1)

-- `static_cast<int>` and `static_cast<int64_t>` of an unsigned integer of the same width.
abbrev pub to_int32 : ℤ → ℤ
to_int32 (pos n) = as_signed 32 n
to_int32 (negsuc n) = negsuc n

abbrev pub to_int64 : ℤ → ℤ
to_int64 (pos n) = as_signed 64 n
to_int64 (negsuc n) = negsuc n

-- What a reader of `s.c_str()` sees: the bytes up to the first null byte.
unfoldable pub c_string : List ℕ → List ℕ
c_string [] = []
c_string (c ∷ s) = if c == 0 then [] else c ∷ c_string s

-- The first `n` bytes of a block.
unfoldable pub take : ℕ → List ℕ → List ℕ
take zero xs = []
take (suc n) [] = []
take (suc n) (x ∷ xs) = x ∷ take n xs

pub take-length : (xs : List ℕ) → take (length xs) xs ≡ xs
unfolding take
take-length [] = refl
take-length (x ∷ xs) = ap (◌∷◌ x) (take-length xs)
