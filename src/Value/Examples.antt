-- ===== src/Value/Examples.antt =====
-- Values at work.
use storm_byte_database.Prelude.{true, false, ◌≡◌, refl}
use storm_byte_database.Prelude.Int.{pos}
use storm_byte_database.Value.{Value, nan, finite, double_eq, value_eq}

nan_differs : value_eq (Value.double nan) (Value.double nan) ≡ false
unfolding value_eq double_eq
nan_differs = refl

zeros_agree : value_eq (Value.double (finite true 0 0 0)) (Value.double (finite false 0 0 0)) ≡ true
unfolding value_eq double_eq
zeros_agree = refl

types_differ : value_eq (Value.integer (pos 1)) (Value.boolean true) ≡ false
unfolding value_eq
types_differ = refl
