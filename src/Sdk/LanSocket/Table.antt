-- ===== src/Sdk/LanSocket/Table.antt =====
-- sdk/lan_socket.py: the table of the links, and what the reader does with a frame.
pub mod Online
use pypopur.Prelude.{
  [], ◌&&◌, Option, ℕ, List, true, false, Bool, some, not, ◌∷◌, none, if◌then◌else◌, ◌==◌,
}
use pypopur.Prelude.Dict.{put, get, pop, Dict}
use pypopur.Prelude.Eq.{text_Eq}
use pypopur.Prelude.Int.{eq_ℤ, negsuc, ℤ, pos}
use pypopur.Py.{Bytes, Chars}
use pypopur.Sdk.Crypto.{CryptoLib}
use pypopur.Sdk.LanSocket.{Frame}
use pypopur.Sdk.LanSocket.Link.{
  is_live, v3_5, v3_4, v3_5_1, legacy, link_close, Proto, Upcall, Link, sess_key_neg_resp, Links,
  inbound_payload, heart_beat, close_link,
}

-- `_links` and `_addrs`
pub record Net : Type 0 where
  pub links : Links
  pub addrs : Dict Chars Chars

-- `_Link(...)`, whose two times are those of the clock.
abbrev pub new_link : Chars → Proto → Option Bytes → (now : ℕ) → Link
new_link dev_id proto real_key now = record {
  dev_id = dev_id;
  proto = proto;
  real_key = real_key;
  session_key = none;
  online = true;
  closed = false;
  seq = 0;
  negotiating = false;
  last_rx = now;
  last_hb = now;
  sent = [];
}

unfoldable pub set_device_address : Chars → Chars → Net → Net
set_device_address dev_id ip net = record net { addrs = put dev_id ip net.addrs }

unfoldable pub device_address : Chars → Net → Option Chars
device_address dev_id net = get dev_id net.addrs

-- `_open_link`: `connects` tells whether the host takes the connection. The link that stood there
-- is closed without an upcall, and is nobody's any more.
unfoldable pub open_link :
    (connects : Chars → Bool) → Chars → Proto → Option Bytes → (now : ℕ) → Net → ℤ × Net
open_link connects dev_id proto real_key now net = elim (get dev_id net.addrs) [
  | none ↦ (negsuc 0, net)
  | some ip ↦
      if connects ip
      then (pos 1, record net { links = put dev_id (new_link dev_id proto real_key now) net.links })
      else (negsuc 0, net)
]

unfoldable pub connect_device : (connects : Chars → Bool) → Chars → (now : ℕ) → Net → ℤ × Net
unfolding open_link
connect_device connects dev_id now net = open_link connects dev_id legacy none now net

-- `_PROTO_BY_VERSION`
unfoldable pub proto_by_version : ℤ → Proto
proto_by_version version =
    if eq_ℤ version (pos 4)
    then v3_4
    else if eq_ℤ version (pos 5)
    then v3_5
    else if eq_ℤ version (pos 6)
    then v3_5_1
    else legacy

abbrev real_key_of : CryptoLib → Option Chars → Option Bytes
real_key_of lib none = none
real_key_of lib (some []) = none
real_key_of lib (some (c ∷ key)) = some (lib.utf8 (c ∷ key))

unfoldable pub connect_device_with_key :
    CryptoLib
    → (connects : Chars → Bool) → Chars
    → Option Chars
    → (version : ℤ) (now : ℕ) → Net
    → ℤ × Net
unfolding open_link proto_by_version
connect_device_with_key lib connects dev_id key version now net =
    open_link connects dev_id (proto_by_version version) (real_key_of lib key) now net

-- `start_swap_key` until its thread starts.
unfoldable pub start_swap_key : Chars → Net → Net
start_swap_key dev_id net = elim (is_live (get dev_id net.links)) [
  | none ↦ net
  | some link ↦ record net { links = put dev_id (record link { negotiating = true }) net.links }
]

-- The link that is closed leaves the table.
unfoldable pub close_device : Chars → Net → Net
close_device dev_id net = record net { links = pop dev_id net.links }

unfoldable pub close_all_connection : Net → Net
close_all_connection net = record net { links = [] }

-- What the reader does with a frame: it hands it to the negotiation, drops it, or tells the owner.
pub data Turn : Type 0 where
  to_negotiation : Frame → Turn
  ignored : Turn
  response_data : (dev_id : Chars) (cmd seq retcode : ℕ) → Bytes → Turn

abbrev pub is_legacy : Proto → Bool
is_legacy legacy = true
is_legacy _ = false

unfoldable pub reader_turn : CryptoLib → (now : ℕ) → Frame → Link → Turn × Link
unfolding inbound_payload
reader_turn lib now f link =
    let link = record link { last_rx = now } in
    (
      if link.negotiating && f.cmd == sess_key_neg_resp
          then to_negotiation f
          else if f.cmd == heart_beat
          then ignored
          else if not f.auth_ok && not (is_legacy link.proto)
          then ignored
          else elim (inbound_payload lib link f.payload) [
            | none ↦ ignored
            | some bs ↦ response_data link.dev_id f.cmd f.seq f.retcode bs
          ],
      link,
    )

-- The end of the reader: the owner is told if the link was online and is still the device's.
unfoldable pub reader_ends : (current : Bool) → Link → Link × List Upcall
unfolding close_link
reader_ends current link =
    let told =
      if link.online && not link.closed && current
      then link_close link.dev_id (negsuc 0) ∷ []
      else [] in
    ((close_link false (negsuc 0) (record link { online = false })).0, told)
