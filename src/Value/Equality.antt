-- ===== src/Value/Equality.antt =====
-- `operator==` of values.
use storm_byte_database.Prelude.{◌≡◌, refl, ap, ◌≢◌, true, arith, eq_of_text_eq, text_eq_refl}
use storm_byte_database.Value.{
  ValueType, Double, nan, infinite, finite, Value, type_of, double_eq, value_eq,
}

double_eq_refl : (x : Double) → x ≢ nan → double_eq x x ≡ true
unfolding double_eq
double_eq_refl nan h = absurd (h refl)
double_eq_refl (infinite s) h = ground arith
double_eq_refl (finite s m u d) h = ground arith

-- A value compares equal to itself unless it is a NaN.
pub value_eq_refl : (v : Value) → v ≢ Value.double nan → value_eq v v ≡ true
unfolding value_eq
value_eq_refl Value.null h = refl
value_eq_refl (Value.double x) h = double_eq_refl x (λ e. h (ap Value.double e))
value_eq_refl (Value.text s) h = text_eq_refl s
value_eq_refl (Value.blob b) h = text_eq_refl b
value_eq_refl (Value.boolean b) h = ground arith
value_eq_refl (Value.integer z) h = ground arith
value_eq_refl (Value.unsigned_integer z) h = ground arith
value_eq_refl (Value.long_integer z) h = ground arith
value_eq_refl (Value.unsigned_long_integer z) h = ground arith

-- Values that compare equal and hold no doubles are the same value.
pub eq_of_value_eq : (v w : Value) → value_eq v w ≡ true → type_of v ≢ ValueType.double → v ≡ w
unfolding value_eq type_of
eq_of_value_eq (Value.text s) (Value.text t) h n = ap Value.text (eq_of_text_eq s t h)
eq_of_value_eq (Value.blob s) (Value.blob t) h n = ap Value.blob (eq_of_text_eq s t h)
eq_of_value_eq (Value.double x) (Value.double y) h n = absurd (n refl)
eq_of_value_eq v w h n = ground arith
