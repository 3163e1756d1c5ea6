-- ===== src/Py.antt =====
-- The values of Python that the decoders tell apart, and the built-in functions that they call.
-- A text is a list of code points; the digits and the case mapping are those of ASCII texts.
pub mod Text
pub mod Hex
pub mod Base64
use pypopur.Prelude.{
  none, ◌⊎◌, ℕ, List, not, ◌≡◌, ◌%◌, inl, true, Option, some, ◌-◌, inr, refl, Bool, if◌then◌else◌,
  ◌==◌,
}
use pypopur.Prelude.Int.{pos, negsuc, ℤ, ltb_ℤ}

abbrev pub Chars : Type 0
Chars = List ℕ

abbrev pub Bytes : Type 0
Bytes = List ℕ

-- What the program asks of a float: whether it is a number, its value cut to an integer, and
-- whether it is one.
pub data Float : Type 0 where
  nan : Float
  inf : Float
  neg_inf : Float
  finite : ℤ → Bool → Float

-- `bytes` stands for `bytes`, `bytearray` and `memoryview`; a `StrEnum` member is a text and an
-- `IntEnum` member is an integer. The contents of mappings and of other objects are not looked at.
mutual
  pub data Value : Type 0 where
    null : Value
    bool : Bool → Value
    int : ℤ → Value
    float : Float → Value
    str : List ℕ → Value
    bytes : List ℕ → Value
    iterable : Values → Value
    mapping : Value
    object : Value

  pub data Values : Type 0 where
    nil : Values
    cons : Value → Values → Values

pub data Exception : Type 0 where
  value_error overflow_error index_error : Exception

-- A function that may raise.
pub data Result {ℓ κ} (E : Type ℓ) (A : Type κ) : Type (ℓ ⊔ κ) where
  ok : A → Result E A
  raise : E → Result E A

pub Result-cases {ℓ κ} :
    {E : Type ℓ} {A : Type κ} (r : Result E A) → ((a : A) × (r ≡ ok a)) ⊎ ((e : E) × (r ≡ raise e))
Result-cases (ok a) = inl (a, refl)
Result-cases (raise e) = inr (e, refl)

infixl 5 ◌>>=◌
abbrev pub ◌>>=◌ {ℓ κ μ} :
    {E : Type ℓ} {A : Type κ} {B : Type μ} → Result E A → (A → Result E B) → Result E B
ok a >>= f = f a
raise x >>= f = raise x

-- `int(x)` of a float.
unfoldable pub int_of_float : Float → Result Exception ℤ
int_of_float nan = raise value_error
int_of_float inf = raise overflow_error
int_of_float neg_inf = raise overflow_error
int_of_float (finite z integral) = ok z

-- `v & 0xFF`, also of a negative number.
abbrev pub byte_of : ℤ → ℕ
byte_of (pos n) = n % 256
byte_of (negsuc n) = 255 - n % 256

abbrev pub min : ℤ → ℤ → ℤ
min a b = if ltb_ℤ b a then b else a

abbrev pub max : ℤ → ℤ → ℤ
max a b = if ltb_ℤ a b then b else a

-- `dict.get` on a missing key gives `None`.
abbrev pub or_null : Option Value → Value
or_null none = null
or_null (some v) = v

-- `z != 0`
abbrev pub is_nonzero : ℤ → Bool
is_nonzero (pos n) = not (n == 0)
is_nonzero (negsuc n) = true
