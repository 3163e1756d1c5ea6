-- ===== src/Codec/Hex.antt =====
-- The hexadecimal text of a payload, read back by `decode_raw_bytes` of src/pypopur/codec.py.
use pypopur.Prelude.{refl, ◌<◌, ◌≡◌, Bool, some, All}
use pypopur.Codec.{decode_raw_bytes}
use pypopur.Py.{Bytes, str}
use pypopur.Py.Hex.{hex}
use pypopur.RawBytes.Hex.{decode_to_bytes-hex}

pub decode_raw_bytes-hex :
    (bs : Bytes) (base64 : Bool)
    → All (λ b. b < 256) bs
    → decode_raw_bytes (str (hex bs)) base64 ≡ some bs
unfolding decode_raw_bytes
decode_raw_bytes-hex bs base64 h = rw (decode_raw_bytes, (decode_to_bytes-hex bs h).1) refl
