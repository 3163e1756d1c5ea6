-- ===== src/Dps/Notifications.antt =====
-- A raw DP map, its keys made integers, and the notification switches that it holds.
use pypopur.Prelude.{false, Bool, ℕ, ◌↔◌, some, arith, none, true, Option, ◌≡◌, ◌∷◌, refl, []}
use pypopur.Prelude.Dict.{Dict, get, or_other, put}
use pypopur.Prelude.Eq.{text_eq_iff, text_eq, Eq}
use pypopur.Prelude.Int.{pos, eq_ℤ, ℤ}
use pypopur.Codec.{parse_bool}
use pypopur.Py.{or_null, ok, Chars, bool, ◌>>=◌, Result, Exception, Value}
use pypopur.Py.Text.{text_of_int, int_of_text}

-- Libraries give the key of a data point as an integer or as a text.
pub data DpKey : Type 0 where
  dp : ℤ → DpKey
  dp_text : Chars → DpKey

unfoldable pub eq_key : DpKey → DpKey → Bool
eq_key (dp a) (dp b) = eq_ℤ a b
eq_key (dp_text a) (dp_text b) = text_eq a b
eq_key (dp a) (dp_text b) = false
eq_key (dp_text a) (dp b) = false

eq_ℤ_iff : (a b : ℤ) → (eq_ℤ a b ≡ true) ↔ (a ≡ b)
eq_ℤ_iff a b = ground arith

pub eq_key_iff : (a b : DpKey) → (eq_key a b ≡ true) ↔ (a ≡ b)
unfolding eq_key
eq_key_iff (dp a) (dp b) = ground (arith, eq_ℤ_iff a b)
eq_key_iff (dp_text a) (dp_text b) = ground (arith, text_eq_iff a b)
eq_key_iff (dp a) (dp_text b) = ground arith
eq_key_iff (dp_text a) (dp b) = ground arith

instance abbrev pub DpKey_Eq : Eq DpKey
DpKey_Eq = record { beq = eq_key; beq_iff = eq_key_iff }

abbrev pub RawDps : Type 0
RawDps = Dict DpKey Value

-- `int(key)`, or nothing on a `ValueError`.
abbrev pub numeric_key : DpKey → Option ℤ
numeric_key (dp z) = some z
numeric_key (dp_text t) = int_of_text 10 t

unfoldable pub normalize_onto : RawDps → RawDps → RawDps
normalize_onto normalized [] = normalized
normalize_onto normalized ((key, value) ∷ dps) =
    normalize_onto
      (elim (numeric_key key) [ none ↦ normalized | some z ↦ put (dp z) value normalized ]) dps

unfoldable pub normalize_dp_mapping : RawDps → RawDps
unfolding normalize_onto
normalize_dp_mapping dps = normalize_onto [] dps

-- `dps.get(dp, dps.get(str(dp)))`
unfoldable pub dp_value : RawDps → ℕ → Value
dp_value dps n = or_null (or_other (get (dp (pos n)) dps) (get (dp_text (text_of_int (pos n))) dps))

pub record NotificationSettings : Type 0 where
  pub master_enabled : Bool
  pub pet_detected_enabled : Bool
  pub pet_finished_enabled : Bool
  pub pet_left_without_business_enabled : Bool
  pub cleaning_started_enabled : Bool
  pub cleaning_paused_enabled : Bool
  pub cleaning_resumed_enabled : Bool
  pub automatic_cleaning_enabled : Bool
  pub scheduled_cleaning_enabled : Bool
  pub manual_cleaning_enabled : Bool
  pub bin_full_enabled : Bool
  pub self_check_enabled : Bool

unfoldable pub decode_notification_settings : RawDps → Result Exception NotificationSettings
decode_notification_settings dps = do
  master_enabled ← parse_bool (dp_value dps 112)
  pet_detected_enabled ← parse_bool (dp_value dps 113)
  pet_finished_enabled ← parse_bool (dp_value dps 114)
  pet_left_without_business_enabled ← parse_bool (dp_value dps 115)
  cleaning_started_enabled ← parse_bool (dp_value dps 117)
  cleaning_paused_enabled ← parse_bool (dp_value dps 118)
  cleaning_resumed_enabled ← parse_bool (dp_value dps 119)
  automatic_cleaning_enabled ← parse_bool (dp_value dps 120)
  scheduled_cleaning_enabled ← parse_bool (dp_value dps 121)
  manual_cleaning_enabled ← parse_bool (dp_value dps 122)
  bin_full_enabled ← parse_bool (dp_value dps 123)
  self_check_enabled ← parse_bool (dp_value dps 124)
  ok (record {
    master_enabled = master_enabled;
    pet_detected_enabled = pet_detected_enabled;
    pet_finished_enabled = pet_finished_enabled;
    pet_left_without_business_enabled = pet_left_without_business_enabled;
    cleaning_started_enabled = cleaning_started_enabled;
    cleaning_paused_enabled = cleaning_paused_enabled;
    cleaning_resumed_enabled = cleaning_resumed_enabled;
    automatic_cleaning_enabled = automatic_cleaning_enabled;
    scheduled_cleaning_enabled = scheduled_cleaning_enabled;
    manual_cleaning_enabled = manual_cleaning_enabled;
    bin_full_enabled = bin_full_enabled;
    self_check_enabled = self_check_enabled;
  })

unfoldable pub encode_notification_settings : NotificationSettings → RawDps
encode_notification_settings settings =
    (dp (pos 112), bool settings.master_enabled)
    ∷ (dp (pos 113), bool settings.pet_detected_enabled)
    ∷ (dp (pos 114), bool settings.pet_finished_enabled)
    ∷ (dp (pos 115), bool settings.pet_left_without_business_enabled)
    ∷ (dp (pos 117), bool settings.cleaning_started_enabled)
    ∷ (dp (pos 118), bool settings.cleaning_paused_enabled)
    ∷ (dp (pos 119), bool settings.cleaning_resumed_enabled)
    ∷ (dp (pos 120), bool settings.automatic_cleaning_enabled)
    ∷ (dp (pos 121), bool settings.scheduled_cleaning_enabled)
    ∷ (dp (pos 122), bool settings.manual_cleaning_enabled)
    ∷ (dp (pos 123), bool settings.bin_full_enabled)
    ∷ (dp (pos 124), bool settings.self_check_enabled)
    ∷ []

-- The switches that are written to the device are read back, also through `normalize_dp_mapping`.
pub decode_notification_settings-encode :
    (s : NotificationSettings)
    → (decode_notification_settings (encode_notification_settings s) ≡ ok s)
      × (normalize_dp_mapping (encode_notification_settings s) ≡ encode_notification_settings s)
unfolding decode_notification_settings encode_notification_settings dp_value get put parse_bool
    normalize_dp_mapping eq_key
decode_notification_settings-encode s = (refl, refl)
