-- ===== src/Dps/Scalars.antt =====
-- The data points that are one value: DP 106, 125 and 22, counters, and the notification switches.
use pypopur.Prelude.{
  none, Bool, Option, ◌∷◌, ℕ, zero, ◌+◌, some, ◌^◌, ◌&&◌, true, suc, not, ◌++◌, false, List, [],
  set, get_elem?, ◌==◌, if◌then◌else◌,
}
use pypopur.Prelude.Dict.{get, Dict}
use pypopur.Prelude.Eq.{text_Eq}
use pypopur.Prelude.Int.{negsuc, pos, ℤ}
use pypopur.Codec.{normalize_bytes, clamp, decode_raw_bytes}
use pypopur.Dps.Payload.{clamp_byte, int_of_bool, byte, indexed, has_bit}
use pypopur.Models.Settings.{SelfCheckStatus}
use pypopur.Py.{
  float, int_of_float, int, Float, Exception, Value, str, ok, Chars, Bytes, ◌>>=◌, bool, finite,
  Result,
}
use pypopur.Py.Hex.{hex}
use pypopur.Py.Text.{strip, int_of_text, lower, codes}

abbrev pub progress_of : Bytes → Result Exception (Option SelfCheckStatus)
progress_of [] = ok none
progress_of (b ∷ bs) =
    let raw = normalize_bytes (some (b ∷ bs)) 5 none in
    indexed 1 raw (record { progress = clamp (pos (byte raw 0)) (pos 0) (pos 100); raw = raw })

unfoldable pub decode_dp106 : Value → Result Exception (Option SelfCheckStatus)
decode_dp106 value = elim (decode_raw_bytes value true) [
  | none ↦ ok none
  | some decoded ↦ progress_of decoded
]

unfoldable pub encode_dp106 : SelfCheckStatus → Chars
encode_dp106 status = hex (
    set (normalize_bytes (some status.raw) 5 none) 0 (clamp_byte status.progress (pos 0) (pos 100)))

pub record FaultItem : Type 0 where
  pub mask : ℕ
  pub label : Chars
  pub url : Chars

abbrev fault_item : ℕ → FaultItem
fault_item i = record {
  mask = 2 ^ i;
  label = codes "Error code " ++ (b'A' + i) ∷ [];
  url = codes "https://popur.com/pages/s7-error-code-" ++ (b'a' + i) ∷ [];
}

-- `range(n)`, each element mapped.
unfoldable pub fault_items_below : ℕ → List FaultItem
fault_items_below zero = []
fault_items_below (suc n) = fault_items_below n ++ fault_item n ∷ []

-- A text is read as a hexadecimal number; `int` of a float may raise.
unfoldable pub decode_dp125_value : Value → Result Exception ℤ
decode_dp125_value (bool b) = ok (pos (int_of_bool b))
decode_dp125_value (int z) = ok z
decode_dp125_value (float x) = int_of_float x
decode_dp125_value (str t) = elim (int_of_text 16 (strip t)) [ none ↦ ok (pos 0) | some z ↦ ok z ]
decode_dp125_value _ = ok (pos 0)

-- `value & mask` of a mask with one bit, as a truth; a negative number is in two's complement.
abbrev pub int_has_bit : ℤ → ℕ → Bool
int_has_bit (pos n) mask = has_bit n mask
int_has_bit (negsuc n) mask = not (has_bit n mask)

unfoldable pub matching : ℤ → List FaultItem → List FaultItem
matching value [] = []
matching value (item ∷ items) =
    let rest = matching value items in if int_has_bit value item.mask then item ∷ rest else rest

unfoldable pub decode_dp125 : Value → Result Exception (List FaultItem)
decode_dp125 value = do
  fault_value ← decode_dp125_value value
  ok (matching fault_value (fault_items_below 26))

pub data RecentActivity : Type 0 where
  idle cat_exist cat_left cat_done_business : RecentActivity
  manual_clean_completed scheduled_clean_completed automatic_clean_completed : RecentActivity
  bin_full self_check_completed : RecentActivity
  cleaning_started cleaning_paused cleaning_resumed : RecentActivity

-- The activities in the order of their codes.
abbrev pub activities : List RecentActivity
activities =
    idle ∷ cat_exist ∷ cat_left ∷ cat_done_business ∷ manual_clean_completed
    ∷ scheduled_clean_completed ∷ automatic_clean_completed ∷ bin_full ∷ self_check_completed
    ∷ cleaning_started ∷ cleaning_paused ∷ cleaning_resumed ∷ []

abbrev pub activity_names : Dict Chars RecentActivity
activity_names =
    (codes "idle", idle)
    ∷ (codes "cat_exist", cat_exist)
    ∷ (codes "cat_left", cat_left)
    ∷ (codes "cat_done_business", cat_done_business)
    ∷ (codes "manual_clean_completed", manual_clean_completed)
    ∷ (codes "scheduled_clean_completed", scheduled_clean_completed)
    ∷ (codes "automatic_clean_completed", automatic_clean_completed)
    ∷ (codes "auttomatic_clean_completed", automatic_clean_completed)
    ∷ (codes "bin_full", bin_full)
    ∷ (codes "bin_ful", bin_full)
    ∷ (codes "self-check completed", self_check_completed)
    ∷ (codes "self_check_completed", self_check_completed)
    ∷ (codes "cleaning_started", cleaning_started)
    ∷ (codes "clean_start", cleaning_started)
    ∷ (codes "cleaning_paused", cleaning_paused)
    ∷ (codes "cleanning_paused", cleaning_paused)
    ∷ (codes "cleaning_resume", cleaning_resumed)
    ∷ (codes "cleaning_resumed", cleaning_resumed)
    ∷ []

-- `RecentActivity(code)`, or `None`.
abbrev activity_at : ℤ → Option RecentActivity
activity_at (pos n) = get_elem? activities n
activity_at (negsuc n) = none

abbrev starts_hex : Chars → Bool
starts_hex (a ∷ b ∷ t) = a == b'0' && b == b'x'
starts_hex _ = false

abbrev pub activity_of_text : Chars → Option RecentActivity
activity_of_text [] = none
activity_of_text (c ∷ t) =
    let text = c ∷ t in
    elim (int_of_text (if starts_hex (lower text) then 16 else 10) text) [
      | none ↦ get (lower text) activity_names
      | some code ↦ activity_at code
    ]

unfoldable pub decode_dp22 : Value → Option RecentActivity
decode_dp22 (int code) = activity_at code
decode_dp22 (str t) = activity_of_text (strip t)
decode_dp22 _ = none

pub data Number : Type 0 where
  whole : ℤ → Number
  real : Float → Number

-- `float(text)` is Python's.
module _ (float_of_text : Chars → Option Float) where
  abbrev number_of_text : Chars → Option Number
  number_of_text [] = none
  number_of_text (c ∷ t) = elim (int_of_text 10 (c ∷ t)) [
    | some z ↦ some (whole z)
    | none ↦ elim (float_of_text (c ∷ t)) [ none ↦ none | some x ↦ some (real x) ]
  ]

  unfoldable pub decode_numeric_scalar : Value → Option Number
  decode_numeric_scalar (int z) = some (whole z)
  decode_numeric_scalar (float x) = some (real x)
  decode_numeric_scalar (str t) = number_of_text (strip t)
  decode_numeric_scalar _ = none

  abbrev integer_part : Number → Option ℤ
  integer_part (whole z) = some z
  integer_part (real (finite z true)) = some z
  integer_part (real _) = none

  unfoldable pub decode_int_scalar : Value → Option ℤ
  unfolding decode_numeric_scalar
  decode_int_scalar value = elim (decode_numeric_scalar value) [
    | none ↦ none
    | some n ↦ integer_part n
  ]
