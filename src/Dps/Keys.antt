-- ===== src/Dps/Keys.antt =====
-- DP 105: the panel keys, what each gesture does and which keys are locked, in seven bytes.
pub mod RoundTrip
pub mod Locks
use pypopur.Prelude.{
  ◌∷◌, ℕ, some, [], bit_and, true, none, ◌-◌, Option, Bool, ◌^◌, bit_or, take, length, leb,
  if◌then◌else◌, ltb,
}
use pypopur.Prelude.Int.{pos, ℤ, negsuc}
use pypopur.Codec.{decode_raw_bytes}
use pypopur.Dps.Payload.{byte, int_of_bool, indexed}
use pypopur.Models.Settings.{KeySettings}
use pypopur.Py.{Result, Exception, ok, is_nonzero, Bytes, Chars, byte_of, Value}
use pypopur.Py.Hex.{hex}

abbrev pub dp105_default : Bytes
dp105_default = 0 ∷ 1 ∷ 0 ∷ 1 ∷ 2 ∷ 1 ∷ 3 ∷ []

abbrev key_settings_of : Bytes → KeySettings
key_settings_of raw = record {
  lock_mask = bit_and (byte raw 0) 0x0f;
  press = record { enabled = is_nonzero (pos (byte raw 1)); function = pos (byte raw 2) };
  hold_3s = record { enabled = is_nonzero (pos (byte raw 3)); function = pos (byte raw 4) };
  hold_7s = record { enabled = is_nonzero (pos (byte raw 5)); function = pos (byte raw 6) };
}

-- A short payload is replaced by the default as a whole.
abbrev pub decode_keys : Option Bytes → Result Exception (Option KeySettings)
decode_keys none = ok none
decode_keys (some decoded) =
    let raw = if leb 7 (length decoded) then take 7 decoded else dp105_default in
    indexed 7 raw (key_settings_of raw)

unfoldable pub decode_dp105 : Value → Result Exception (Option KeySettings)
decode_dp105 value = decode_keys (decode_raw_bytes value true)

abbrev key_bytes : KeySettings → Bytes
key_bytes settings =
    bit_and settings.lock_mask 0x0f
    ∷ int_of_bool settings.press.enabled
    ∷ byte_of settings.press.function
    ∷ int_of_bool settings.hold_3s.enabled
    ∷ byte_of settings.hold_3s.function
    ∷ int_of_bool settings.hold_7s.enabled
    ∷ byte_of settings.hold_7s.function
    ∷ []

unfoldable pub encode_dp105 : KeySettings → Chars
encode_dp105 settings = hex (key_bytes settings)

-- `old & ~mask` of numbers that are not negative.
abbrev pub clear : ℕ → ℕ → ℕ
clear old mask = old - bit_and old mask

unfoldable pub with_key_lock : KeySettings → ℤ → Bool → KeySettings
with_key_lock settings (negsuc i) locked = settings
with_key_lock settings (pos i) locked =
    let bit = 2 ^ i in
    let mask = if locked then bit_or settings.lock_mask bit else clear settings.lock_mask bit in
    if ltb i 4 then record settings { lock_mask = bit_and mask 0x0f } else settings
