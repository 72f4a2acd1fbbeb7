-- ===== src/Decimal/RoundTrip.antt =====
-- Numbers survive the text: what `to_string` writes `stoll` reads.
use storm_byte_database.Prelude.{◌≡◌, Text, true, [], ◌∷◌, All}
use storm_byte_database.Value.{Value}
use storm_byte_database.Decimal.{is_digit}

abbrev AllDigits : Text → Type 0
AllDigits s = All (λ c. is_digit c ≡ true) s

abbrev Starts : Text → Type 0
Starts [] = ⊥
Starts (c ∷ s) = is_digit c ≡ true
