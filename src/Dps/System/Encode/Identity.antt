-- ===== src/Dps/System/Encode/Identity.antt =====
-- Settings that were decoded and not changed are written back byte for byte.
use mathlib.Core.Path.{subst}
use pypopur.Prelude.{true, Option, arith, ap, ◌≡◌, some, none, refl, false, length}
use pypopur.Prelude.Eq.{text_eq_iff}
use pypopur.Codec.{normalize_bytes, decode_raw_bytes}
use pypopur.Codec.Laws.{length-normalize_bytes, normalize_bytes_self}
use pypopur.Dps.Payload.{assign, int_ne_self, indexed-inj, bool_ne_self}
use pypopur.Dps.System.{
  weight_functions_ne, decode_dp102, decode_settings, settings_of, dp102_length, notifications_ne,
  text_ne, notifications_ext_ne,
}
use pypopur.Dps.System.Encode.{
  write_panel, write_spin, write_reshuffle, write_shield, encode_dp102, payload,
}
use pypopur.Models.Settings.{
  SystemSettings, WeightFunctionSettings, DetailedNotificationSettings,
  DetailedNotificationExtSettings,
}
use pypopur.Py.{Chars, ok, Bytes, Value}
use pypopur.Py.Hex.{hex}

text_ne_self : (a : Chars) → text_ne a a ≡ false
unfolding text_ne
text_ne_self a = ground (arith, text_eq_iff a a)

notifications_ne_self : (a : DetailedNotificationSettings) → notifications_ne a a ≡ false
unfolding notifications_ne
notifications_ne_self a = simp bool_ne_self

notifications_ext_ne_self : (a : DetailedNotificationExtSettings) → notifications_ext_ne a a ≡ false
unfolding notifications_ext_ne
notifications_ext_ne_self a = simp bool_ne_self

weight_functions_ne_self : (a : WeightFunctionSettings) → weight_functions_ne a a ≡ false
unfolding weight_functions_ne
weight_functions_ne_self a = simp bool_ne_self

ruleset unchanged = (
  bool_ne_self, int_ne_self, text_ne_self, notifications_ne_self, notifications_ext_ne_self,
  weight_functions_ne_self,
)

payload_self : (s : SystemSettings) → length s.raw ≡ 29 → settings_of s.raw ≡ s → payload s ≡ s.raw
unfolding payload write_shield write_panel write_spin write_reshuffle assign
payload_self s size same =
    rw (normalize_bytes_self s.raw 28 size, normalize_bytes_self s.raw 28 size, same)
      (simp unchanged)

-- Decoded settings are those of their own 29 bytes.
pub decoded_settings :
    (o : Option Bytes) (s : SystemSettings)
    → decode_settings o ≡ ok (some s)
    → (length s.raw ≡ 29) × (settings_of s.raw ≡ s)
unfolding settings_of
decoded_settings none s h = cc
decoded_settings (some bs) s h =
    let raw = normalize_bytes (some bs) dp102_length none in
    subst (λ (t : SystemSettings). (length t.raw ≡ 29) × (settings_of t.raw ≡ t))
      (indexed-inj 29 raw (settings_of raw) s h) (length-normalize_bytes (some bs) 29 none, refl)

-- What `decode_dp102` reads, `encode_dp102` writes back: the 29 bytes that were read.
pub encode_dp102-decode_dp102 :
    (v : Value) (s : SystemSettings)
    → decode_dp102 v ≡ ok (some s)
    → (encode_dp102 s ≡ hex s.raw) × (length s.raw ≡ 29)
unfolding encode_dp102 decode_dp102
encode_dp102-decode_dp102 v s h =
    let (size, same) = decoded_settings (decode_raw_bytes v true) s h in
    (ap hex (payload_self s size same), size)
