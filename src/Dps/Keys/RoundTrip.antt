-- ===== src/Dps/Keys/RoundTrip.antt =====
-- Key settings through their seven bytes and back.
use pypopur.Prelude.{◌≡◌, true, ◌<◌, ℕ, ◌&&◌, bit_and, arith, some, ap, ◌∙◌, refl, ltb, ◌==◌}
use pypopur.Prelude.Bits.{all_below, all_below_sound}
use pypopur.Prelude.Int.{pos}
use pypopur.Codec.Hex.{decode_raw_bytes-hex}
use pypopur.Dps.Keys.{decode_dp105, decode_keys, encode_dp105, key_bytes, key_settings_of}
use pypopur.Dps.Payload.{AllBytes, nonzero_int_of_bool, byte_of_lt, int_of_bool_lt}
use pypopur.Models.Settings.{KeyGesture, KeySettings}
use pypopur.Py.{str, ok, byte_of}

abbrev kept_gesture : KeyGesture → KeyGesture
kept_gesture g = record { enabled = g.enabled; function = pos (byte_of g.function) }

abbrev pub kept_keys : KeySettings → KeySettings
kept_keys s = record {
  lock_mask = s.lock_mask;
  press = kept_gesture s.press;
  hold_3s = kept_gesture s.hold_3s;
  hold_7s = kept_gesture s.hold_7s;
}

mask_table :
    all_below 16 (λ m. bit_and (bit_and m 0x0f) 0x0f == m && ltb (bit_and m 0x0f) 256) ≡ true
unfolding all_below
mask_table = refl

mask_lem : (m : ℕ) → m < 16 → (bit_and (bit_and m 0x0f) 0x0f ≡ m) × (bit_and m 0x0f < 256)
mask_lem m h = let row = all_below_sound 16 _ m mask_table h in ground arith

key_settings_of-bytes :
    (s : KeySettings) → s.lock_mask < 16 → key_settings_of (key_bytes s) ≡ kept_keys s
key_settings_of-bytes s h = λ i. record {
  lock_mask = (mask_lem s.lock_mask h).0 i;
  press = record {
    enabled = nonzero_int_of_bool s.press.enabled i;
    function = pos (byte_of s.press.function);
  };
  hold_3s = record {
    enabled = nonzero_int_of_bool s.hold_3s.enabled i;
    function = pos (byte_of s.hold_3s.function);
  };
  hold_7s = record {
    enabled = nonzero_int_of_bool s.hold_7s.enabled i;
    function = pos (byte_of s.hold_7s.function);
  };
}

All-key_bytes : (s : KeySettings) → s.lock_mask < 16 → AllBytes (key_bytes s)
All-key_bytes s h = (
  (mask_lem s.lock_mask h).1,
  (
    int_of_bool_lt _,
    (byte_of_lt _, (int_of_bool_lt _, (byte_of_lt _, (int_of_bool_lt _, (byte_of_lt _, tt))))),
  ),
)

-- What `encode_dp105` writes, `decode_dp105` reads as the same keys, with the
-- functions cut to eight bits, if the lock mask has no bit but those of the four keys.
pub decode_dp105-encode_dp105 :
    (s : KeySettings)
    → s.lock_mask < 16
    → decode_dp105 (str (encode_dp105 s)) ≡ ok (some (kept_keys s))
unfolding decode_dp105 encode_dp105
decode_dp105-encode_dp105 s h =
    ap decode_keys (decode_raw_bytes-hex (key_bytes s) true (All-key_bytes s h))
    ∙ ap (λ t. ok (some t)) (key_settings_of-bytes s h)
