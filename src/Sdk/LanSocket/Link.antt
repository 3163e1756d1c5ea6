-- ===== src/Sdk/LanSocket/Link.antt =====
-- sdk/lan_socket.py: the links to the devices: sending, closing, heartbeats.
pub mod Negotiate
pub mod Delivery
pub mod Authentic
use pypopur.Prelude.{
  not, ℕ, ◌∷◌, ◌++◌, ◌&&◌, Bool, [], none, some, false, Option, List, suc, true, if◌then◌else◌,
}
use pypopur.Prelude.Dict.{put, get, Dict}
use pypopur.Prelude.Eq.{text_Eq}
use pypopur.Prelude.Int.{negsuc, ℤ, pos}
use pypopur.Dps.System.Encode.{payload}
use pypopur.Py.{Bytes, Chars, ok, Result, raise}
use pypopur.Sdk.Crypto.{CryptoLib, aes_ecb_decrypt, aes_ecb_encrypt}
use pypopur.Sdk.LanSocket.{Ciphers, pack_6699, pack_55aa}

pub data Proto : Type 0 where
  legacy v3_4 v3_5 v3_5_1 : Proto

-- `_Link`, with what was written to its socket. Times are in milliseconds.
pub record Link : Type 0 where
  pub dev_id : Chars
  pub proto : Proto
  pub real_key : Option Bytes
  pub session_key : Option Bytes
  pub online : Bool
  pub closed : Bool
  pub seq : ℕ
  pub negotiating : Bool
  pub last_rx : ℕ
  pub last_hb : ℕ
  pub sent : List Bytes

abbrev pub sess_key_neg_start : ℕ
sess_key_neg_start = 3

abbrev pub sess_key_neg_resp : ℕ
sess_key_neg_resp = 4

abbrev pub sess_key_neg_finish : ℕ
sess_key_neg_finish = 5

abbrev pub heart_beat : ℕ
heart_beat = 9

-- `session_key or real_key`: an empty key is none.
abbrev pub either_key : Option Bytes → Option Bytes → Option Bytes
either_key none fallback = fallback
either_key (some []) fallback = fallback
either_key (some (b ∷ bs)) fallback = some (b ∷ bs)

unfoldable pub verify_key : Link → Option Bytes
verify_key link = elim link.proto [
  | legacy ↦ none
  | v3_4 ↦ either_key link.session_key link.real_key
  | v3_5 ↦ either_key link.session_key link.real_key
  | v3_5_1 ↦ either_key link.session_key link.real_key
]

unfoldable pub next_seq : Link → Link
next_seq link = record link { seq = suc link.seq }

-- What a function raises: the errors of the negotiation, and any other exception.
pub data LinkError : Type 0 where
  send_failed timed_out bad_response hmac_mismatch uncaught : LinkError

-- A function that may raise, and the link after it.
abbrev pub Step {ℓ} : Type ℓ → Type ℓ
Step A = Result LinkError A × Link

-- `sendall` of a frame, which the socket takes if it is `writable`.
abbrev pub written : (writable : Bool) → Option Bytes → Link → Step ℤ
written writable none link = (raise uncaught, link)
written true (some frame) link = (ok (pos 0), record link { sent = link.sent ++ frame ∷ [] })
written false (some frame) link = (ok (negsuc 1), link)

-- The device's links by their identifiers.
abbrev pub Links : Type 0
Links = Dict Chars Link

abbrev pub is_live : Option Link → Option Link
is_live none = none
is_live (some link) = if link.online then some link else none

module _ (ciphers : Ciphers) (writable : Bool) where
  unfoldable pub send_55aa : (cmd : ℕ) → Bytes → Option Bytes → Link → Step ℤ
  unfolding pack_55aa next_seq
  send_55aa cmd payload key link =
      let link = next_seq link in
      written writable (pack_55aa ciphers link.seq cmd payload key none) link

  unfoldable pub send_6699 : (iv : Bytes) (cmd : ℕ) → Bytes → Bytes → Link → Step ℤ
  unfolding pack_6699 next_seq
  send_6699 iv cmd plaintext key link =
      let link = next_seq link in
      written writable (pack_6699 ciphers iv link.seq cmd plaintext key none) link

  -- The 3.5 protocols: under the session key, or the real key before there is one.
  abbrev pub send_gcm : (iv : Bytes) (cmd : ℕ) → Bytes → Link → Step ℤ
  send_gcm iv cmd bs link = elim (either_key link.session_key link.real_key) [
    | none ↦ (ok (negsuc 0), link)
    | some key ↦ send_6699 iv cmd bs key link
  ]

  -- `send_bytes` once the link is found.
  unfoldable pub send_raw : (iv : Bytes) (cmd : ℕ) → Bytes → Link → Step ℤ
  unfolding send_55aa send_6699
  send_raw iv cmd bs link = elim link.proto [
    | legacy ↦ send_55aa cmd bs none link
    | v3_4 ↦ send_55aa cmd bs link.real_key link
    | v3_5 ↦ send_gcm iv cmd bs link
    | v3_5_1 ↦ send_gcm iv cmd bs link
  ]

  module _ (lib : CryptoLib) where
    -- The payload is encrypted before the frame takes a number.
    abbrev pub send_ecb : (cmd : ℕ) → (key bs : Bytes) → Link → Step ℤ
    send_ecb cmd key bs link = elim (aes_ecb_encrypt lib key bs) [
      | none ↦ (raise uncaught, link)
      | some payload ↦ send_55aa cmd payload (some key) link
    ]

    -- `send_bytes2` once the link is found.
    unfoldable pub send_session : (iv : Bytes) (cmd : ℕ) → Bytes → Link → Step ℤ
    unfolding send_55aa send_6699 aes_ecb_encrypt
    send_session iv cmd bs link = elim link.proto [
      | legacy ↦ send_55aa cmd bs none link
      | v3_4 ↦ elim link.session_key [
        | none ↦ (ok (negsuc 0), link)
        | some key ↦ send_ecb cmd key bs link
      ]
      | v3_5 ↦ send_gcm iv cmd bs link
      | v3_5_1 ↦ send_gcm iv cmd bs link
    ]

    abbrev heartbeat_34 : Link → Step ℤ
    heartbeat_34 link = elim (either_key link.session_key link.real_key) [
      | none ↦ (ok (negsuc 0), link)
      | some key ↦ send_ecb heart_beat key [] link
    ]

    -- `_send_heartbeat`; the code that it leaves is dropped.
    unfoldable pub send_heartbeat : (iv : Bytes) → Link → Step ℤ
    unfolding send_55aa send_6699 aes_ecb_encrypt
    send_heartbeat iv link = elim link.proto [
      | legacy ↦ send_55aa heart_beat [] none link
      | v3_4 ↦ heartbeat_34 link
      | v3_5 ↦ send_gcm iv heart_beat [] link
      | v3_5_1 ↦ send_gcm iv heart_beat [] link
    ]

-- The upcalls to the owner of the links.
pub data Upcall : Type 0 where
  link_close : Chars → (code : ℤ) → Upcall
  handshake_success : Chars → Upcall
  handshake_error : Chars → LinkError → Upcall

abbrev closing : (dispatch : Bool) (code : ℤ) → Link → List Upcall
closing dispatch code link = if dispatch then link_close link.dev_id code ∷ [] else []

-- `_close_link`
unfoldable pub close_link : (dispatch : Bool) (code : ℤ) → Link → Link × List Upcall
close_link dispatch code link =
    if link.closed
    then (link, [])
    else (record link { closed = true; online = false }, closing dispatch code link)

unfoldable pub check_online : Links → Chars → Bool
check_online links dev_id = elim (get dev_id links) [
  | none ↦ false
  | some link ↦ link.online && not link.closed
]

-- The link is put back, with what the call answers or raises.
abbrev stored : Links → Chars → Step ℤ → Result LinkError ℤ × Links
stored links dev_id (result, link) = (result, put dev_id link links)

module _ (ciphers : Ciphers) (lib : CryptoLib) (writable : Bool) (iv : Bytes) where
  unfoldable pub send_bytes : Bytes → (cmd : ℕ) → Chars → Links → Result LinkError ℤ × Links
  unfolding send_raw
  send_bytes bs cmd dev_id links = elim (is_live (get dev_id links)) [
    | none ↦ (ok (negsuc 0), links)
    | some link ↦ stored links dev_id (send_raw ciphers writable iv cmd bs link)
  ]

  unfoldable pub send_bytes2 : Bytes → (cmd : ℕ) → Chars → Links → Result LinkError ℤ × Links
  unfolding send_session
  send_bytes2 bs cmd dev_id links = elim (is_live (get dev_id links)) [
    | none ↦ (ok (negsuc 0), links)
    | some link ↦ stored links dev_id (send_session ciphers writable lib iv cmd bs link)
  ]

-- `_inbound_payload`
unfoldable pub inbound_payload : CryptoLib → Link → Bytes → Option Bytes
unfolding aes_ecb_decrypt
inbound_payload lib link payload = elim link.proto [
  | legacy ↦ some payload
  | v3_4 ↦ elim link.session_key [
    | none ↦ some payload
    | some key ↦ aes_ecb_decrypt lib key payload
  ]
  | v3_5 ↦ some payload
  | v3_5_1 ↦ some payload
]
