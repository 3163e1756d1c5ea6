-- ===== src/Dps/System/Encode/Written.antt =====
-- Each byte of the payload: what is written there if its setting changed, or else the old byte.
use pypopur.Prelude.{◌≡◌, none, some, length}
use pypopur.Codec.{normalize_bytes}
use pypopur.Codec.Laws.{normalize_bytes_self, length-normalize_bytes}
use pypopur.Dps.Payload.{length-assign}
use pypopur.Dps.System.{dp102_length, settings_of}
use pypopur.Dps.System.Encode.{write_panel, write_shield, write_spin, payload, write_reshuffle}
use pypopur.Models.Settings.{SystemSettings}
use pypopur.Py.{Bytes}

module _ (s : SystemSettings) where
  -- The 29 bytes before, and the settings that they hold.
  abbrev pub old_bytes : Bytes
  old_bytes = normalize_bytes (some s.raw) dp102_length none

  abbrev pub old_settings : SystemSettings
  old_settings = settings_of old_bytes

  pub length-old : length old_bytes ≡ 29
  length-old = length-normalize_bytes (some s.raw) 29 none

  pub baseline_lem : normalize_bytes (some old_bytes) dp102_length none ≡ old_bytes
  baseline_lem = normalize_bytes_self old_bytes 28 length-old

  pub length-payload : length (payload s) ≡ 29
  unfolding payload write_shield write_panel write_spin write_reshuffle
  length-payload = simp length-assign length-old
