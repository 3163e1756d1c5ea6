-- ===== src/Sdk/LanSocket/Udp.antt =====
-- sdk/lan_socket.py: the packets that devices send over UDP.
pub mod Framed
use pypopur.Prelude.{
  ◌||◌, [], ◌&&◌, Option, Bool, ◌-◌, none, ◌+◌, List, true, ℕ, ◌∷◌, some, drop, take, length, leb,
  ltb, if◌then◌else◌, ◌==◌,
}
use pypopur.Prelude.Dict.{get}
use pypopur.Prelude.Eq.{text_Eq}
use pypopur.Py.{Chars, Bytes}
use pypopur.Py.Text.{codes, is_empty}
use pypopur.Sdk.Crypto.{aes_ecb_decrypt, CryptoLib}
use pypopur.Sdk.LanSocket.{
  Ciphers, be32, word, prefix_55aa, header_len_55aa, prefix_6699, find, header_len_6699,
}
use pypopur.Sdk.MqttFraming.{Obj}

-- What a packet carries: nothing that is read, a frame, or bytes without a frame.
pub data Packet : Type 0 where
  unreadable : Packet
  framed : (cmd retcode : ℕ) → Bytes → Packet
  bare : Bytes → Packet

-- What the owner hears of a packet.
pub data Heard : Type 0 where
  nothing : Heard
  announcement : Obj → Heard
  smart_udp_data : (cmd retcode : ℕ) → Chars → Heard

unfoldable pub unpack_55aa : Bytes → Packet
unfolding word
unpack_55aa frame =
    let body = take (word 12 frame) (drop header_len_55aa frame) in
    if ltb (length frame) (header_len_55aa + 8)
    then unreadable
    else if ltb (length frame) (header_len_55aa + word 12 frame)
    then unreadable
    else if ltb (length body) 8
    then unreadable
    else framed (word 8 frame) (word 0 body) (drop 4 (take (length body - 8) body))

-- `_udp_gcm_decrypt`: the first key that opens the bytes.
unfoldable pub udp_gcm_decrypt : Ciphers → List Bytes → Bytes → Option Bytes
udp_gcm_decrypt ciphers [] bs = none
udp_gcm_decrypt ciphers (key ∷ keys) bs =
    elim (ciphers.gcm_decrypt key (take 12 bs) (drop 12 bs) []) [
      | none ↦ udp_gcm_decrypt ciphers keys bs
      | some plain ↦ some plain
    ]

abbrev opened : (cmd : ℕ) → Option Bytes → Packet
opened cmd none = unreadable
opened cmd (some plain) =
    if ltb (length plain) 4 then unreadable else framed cmd (word 0 plain) (drop 4 plain)

unfoldable pub unpack_6699 : Ciphers → List Bytes → Bytes → Packet
unfolding word udp_gcm_decrypt
unpack_6699 ciphers keys frame =
    if ltb (length frame) header_len_6699
    then unreadable
    else opened (word 10 frame)
        (udp_gcm_decrypt ciphers keys (take (word 14 frame) (drop header_len_6699 frame)))

-- `p66 < 0 or p55 <= p66`
abbrev pub no_later : ℕ → Option ℕ → Bool
no_later i none = true
no_later i (some j) = leb i j

abbrev pub unpack_at : Ciphers → List Bytes → Bytes → (p55 p66 : Option ℕ) → Packet
unpack_at ciphers keys bs none none = bare bs
unpack_at ciphers keys bs none (some j) = unpack_6699 ciphers keys (drop j bs)
unpack_at ciphers keys bs (some i) p66 =
    if no_later i p66
    then unpack_55aa (drop i bs)
    else elim p66 [ none ↦ bare bs | some j ↦ unpack_6699 ciphers keys (drop j bs) ]

unfoldable pub unpack : Ciphers → List Bytes → Bytes → Packet
unfolding find unpack_55aa unpack_6699
unpack ciphers keys bs =
    unpack_at ciphers keys bs (find (be32 prefix_55aa) bs) (find (be32 prefix_6699) bs)

abbrev blank_byte : ℕ → Bool
blank_byte b = leb 9 b && leb b 13 || b == 32

lstrip_by : (ℕ → Bool) → Bytes → Bytes
lstrip_by p [] = []
lstrip_by p (b ∷ bs) = let rest = lstrip_by p bs in if p b then rest else b ∷ bs

rstrip_by : (ℕ → Bool) → Bytes → Bytes
rstrip_by p [] = []
rstrip_by p (b ∷ bs) = let rest = rstrip_by p bs in if p b && is_empty rest then [] else b ∷ rest

unfoldable pub strip_by : (ℕ → Bool) → Bytes → Bytes
unfolding lstrip_by rstrip_by
strip_by p bs = rstrip_by p (lstrip_by p bs)

-- The JSON library's reader is `loads`, `none` where it raises or gives no object.
module _ (lib : CryptoLib) (loads : Chars → Option Obj) where
  abbrev with_gw_id : Obj → Option Obj
  with_gw_id obj = elim (get (codes "gwId") obj) [ none ↦ none | some e ↦ some obj ]

  abbrev candidate : Bytes → Option Obj
  candidate bs = elim (lib.utf8_strict bs) [
    | none ↦ none
    | some t ↦ elim (loads t) [ none ↦ none | some obj ↦ with_gw_id obj ]
  ]

  abbrev candidate_opt : Option Bytes → Option Obj
  candidate_opt none = none
  candidate_opt (some bs) = candidate bs

  unfoldable pub decode_encrypted : List Bytes → Bytes → Option Obj
  unfolding aes_ecb_decrypt
  decode_encrypted [] bs = none
  decode_encrypted (key ∷ keys) bs = elim (candidate_opt (aes_ecb_decrypt lib key bs)) [
    | none ↦ decode_encrypted keys bs
    | some obj ↦ some obj
  ]

  -- `_decode_announcement`
  unfoldable pub decode_announcement : List Bytes → Bytes → Option Obj
  unfolding decode_encrypted strip_by
  decode_announcement keys bs = elim (candidate bs) [
    | some obj ↦ some obj
    | none ↦ elim (candidate (strip_by blank_byte (strip_by (λ b. b == 0) bs))) [
      | some obj ↦ some obj
      | none ↦ decode_encrypted keys bs
    ]
  ]

  abbrev heard : List Bytes → Packet → Heard
  heard keys unreadable = nothing
  heard keys (bare bs) = elim (decode_announcement keys bs) [
    | none ↦ nothing
    | some obj ↦ announcement obj
  ]
  heard keys (framed cmd retcode bs) = elim (decode_announcement keys bs) [
    | none ↦ smart_udp_data cmd retcode (lib.utf8_decode bs)
    | some obj ↦ announcement obj
  ]

  -- `_handle_udp_packet`
  unfoldable pub handle_udp_packet : Ciphers → List Bytes → Bytes → Heard
  unfolding unpack decode_announcement
  handle_udp_packet ciphers keys bs = heard keys (unpack ciphers keys bs)
