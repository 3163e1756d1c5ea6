-- ===== src/Dps/Dustbin.antt =====
-- DP 104: the switches of the dustbin, its calibration and its cycle count, in three bytes.
pub mod RoundTrip
use pypopur.Prelude.{
  ℕ, bit_and, [], Option, ◌||◌, none, Bool, bit_or, true, ◌∷◌, some, ◌++◌, ◌&&◌, drop, length, take,
  leb, if◌then◌else◌,
}
use pypopur.Prelude.Int.{pos}
use pypopur.Codec.{decode_raw_bytes, clamp}
use pypopur.Dps.Payload.{assign, has_bit, int_ne, flag, bool_ne, byte, clamp_byte, indexed}
use pypopur.Models.Settings.{DustbinSettings, DustbinToggles}
use pypopur.Py.{Result, Chars, Value, ok, Exception, Bytes}
use pypopur.Py.Hex.{hex}

abbrev pub dp104_default : Bytes
dp104_default = 0x05 ∷ 0x01 ∷ 0x05 ∷ []

-- `_normalize_dp104` behind `decode_raw_bytes`: what is missing is filled from the default.
unfoldable pub normalize_dp104 : Option Bytes → Bytes
normalize_dp104 (some (b ∷ bs)) =
    if leb 3 (length (b ∷ bs))
    then take 3 (b ∷ bs)
    else (b ∷ bs) ++ drop (length (b ∷ bs)) dp104_default
normalize_dp104 _ = dp104_default

pub toggles_of : ℕ → DustbinToggles
toggles_of switches = record {
  bin_full_detection = has_bit switches 0x01;
  allow_overfill = has_bit switches 0x02;
  keep_upright = has_bit switches 0x04;
  dump_override = has_bit switches 0x08;
  block_on_full = has_bit switches 0x10;
}

-- The part of `decode_dp104` behind `_normalize_dp104`.
pub dustbin_of : Bytes → DustbinSettings
dustbin_of raw = record {
  toggles = toggles_of (byte raw 0);
  calibration = clamp (pos (byte raw 1)) (pos 0) (pos 3);
  cycle_count = pos (if leb 1 (byte raw 2) && leb (byte raw 2) 10 then byte raw 2 else 5);
  raw = raw;
}

abbrev pub decode_dustbin : Option Bytes → Result Exception (Option DustbinSettings)
decode_dustbin none = ok none
decode_dustbin (some decoded) =
    let raw = normalize_dp104 (some decoded) in indexed 3 raw (dustbin_of raw)

unfoldable pub decode_dp104 : Value → Result Exception (Option DustbinSettings)
decode_dp104 value = decode_dustbin (decode_raw_bytes value true)

-- `a != b` of the switches.
pub toggles_ne : DustbinToggles → DustbinToggles → Bool
toggles_ne a b =
    bool_ne a.bin_full_detection b.bin_full_detection
    || bool_ne a.allow_overfill b.allow_overfill
    || bool_ne a.keep_upright b.keep_upright
    || bool_ne a.dump_override b.dump_override
    || bool_ne a.block_on_full b.block_on_full

-- `out[0] & ~known_mask`, and the switches over it.
pub toggles_byte : ℕ → DustbinToggles → ℕ
toggles_byte old t =
    bit_or
      (bit_or
        (bit_or
          (bit_or (bit_or (bit_and old 0xe0) (flag 0x01 t.bin_full_detection))
            (flag 0x02 t.allow_overfill))
          (flag 0x04 t.keep_upright))
        (flag 0x08 t.dump_override))
      (flag 0x10 t.block_on_full)

module _ (settings baseline : DustbinSettings) where
  pub write_dustbin : Bytes → Bytes
  write_dustbin out =
      assign (int_ne settings.cycle_count baseline.cycle_count) 2
        (clamp_byte settings.cycle_count (pos 1) (pos 10))
        (assign (int_ne settings.calibration baseline.calibration) 1
          (clamp_byte settings.calibration (pos 0) (pos 3))
          (assign (toggles_ne settings.toggles baseline.toggles) 0
            (toggles_byte (byte out 0) settings.toggles) out))

-- The three bytes that `encode_dp104` writes.
pub dustbin_bytes : DustbinSettings → Bytes
dustbin_bytes settings =
    let out = normalize_dp104 (some settings.raw) in
    write_dustbin settings (dustbin_of (normalize_dp104 (some out))) out

unfoldable pub encode_dp104 : DustbinSettings → Chars
encode_dp104 settings = hex (dustbin_bytes settings)
