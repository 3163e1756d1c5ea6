-- ===== src/Sdk/Java/Range.antt =====
-- Every number that leaves the helpers is a Java `int`.
use pypopur.Prelude.{arith, ◌≡◌, inr, Bool, inl, Bool-cases}
use pypopur.Prelude.Int.{ℤ, ltb_ℤ, ◌≤ℤ◌}
use pypopur.Py.{
  inf, Value, Result, raise, iterable, object, bool, int, ok, finite, float, str, nan, mapping,
  neg_inf, null, bytes,
}
use pypopur.Sdk.Java.{int32_min, int32_max, low_bits, java_number_int_value, JavaError, to_int32}

abbrev pub IsInt32 : ℤ → Type 0
IsInt32 z = (int32_min ≤ℤ z) × (z ≤ℤ int32_max)

-- The result is a Java `int` that differs from the number by a multiple of 2 ** 32.
pub to_int32_lem : (z : ℤ) → IsInt32 (to_int32 z) × (low_bits 32 (to_int32 z) ≡ low_bits 32 z)
unfolding to_int32
to_int32_lem z = ground arith

-- A Java `int` is left alone.
pub to_int32_self : (z : ℤ) → IsInt32 z → to_int32 z ≡ z
unfolding to_int32
to_int32_self z h = ground arith

abbrev pub IsNumber : Value → Type 0
IsNumber (int z) = Unit
IsNumber (float x) = Unit
IsNumber _ = ⊥

abbrev pub GivesInt32 : Result JavaError ℤ → Type 0
GivesInt32 (ok z) = IsInt32 z
GivesInt32 (raise e) = ⊥

saturated :
    (z : ℤ) (integral : Bool) → GivesInt32 (java_number_int_value (float (finite z integral)))
unfolding java_number_int_value
saturated z integral = elim (Bool-cases (ltb_ℤ z int32_max)) [
  | inl below ↦ elim (Bool-cases (ltb_ℤ int32_min z)) [
    | inl above ↦ rw (below, above) (ground arith)
    | inr e ↦ rw (below, e) (ground arith)
  ]
  | inr e ↦ rw e (ground arith)
]

-- `Number.intValue()` of an integer or a float, whatever its size and also of `nan`, does not raise
-- and gives a Java `int`.
pub java_number_int_value_lem : (v : Value) → IsNumber v → GivesInt32 (java_number_int_value v)
unfolding java_number_int_value
java_number_int_value_lem (int z) h = (to_int32_lem z).0
java_number_int_value_lem (float nan) h = ground arith
java_number_int_value_lem (float inf) h = ground arith
java_number_int_value_lem (float neg_inf) h = ground arith
java_number_int_value_lem (float (finite z integral)) h = saturated z integral
java_number_int_value_lem null h = absurd h
java_number_int_value_lem (bool b) h = absurd h
java_number_int_value_lem (str t) h = absurd h
java_number_int_value_lem (bytes bs) h = absurd h
java_number_int_value_lem (iterable vs) h = absurd h
java_number_int_value_lem mapping h = absurd h
java_number_int_value_lem object h = absurd h
