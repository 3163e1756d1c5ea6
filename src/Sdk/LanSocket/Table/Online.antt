-- ===== src/Sdk/LanSocket/Table/Online.antt =====
-- sdk/lan_socket.py: which devices are online, and whose frames reach the owner.
use pypopur.Prelude.{
  ◌⊎◌, none, ◌≡◌, ◌&&◌, Bool, inl, Option, true, false, some, inr, not, refl, ℕ, ◌==◌,
  if◌then◌else◌,
}
use pypopur.Prelude.Eq.{text_Eq}
use pypopur.Py.{Bytes}
use pypopur.Sdk.Crypto.{CryptoLib}
use pypopur.Sdk.LanSocket.{Frame}
use pypopur.Sdk.LanSocket.Link.{inbound_payload, sess_key_neg_resp, heart_beat, Link}
use pypopur.Sdk.LanSocket.Table.{
  is_legacy, reader_turn, Turn, response_data, ignored, to_negotiation,
}

abbrev pub Delivered : CryptoLib → Link → Frame → Turn → Type 0
Delivered lib link f (response_data dev_id cmd seq retcode bs) =
    (f.auth_ok ≡ true)
    × ((f.cmd == heart_beat) ≡ false)
    × (inbound_payload lib link f.payload ≡ some bs)
    × (dev_id ≡ link.dev_id)
    × (cmd ≡ f.cmd)
    × (seq ≡ f.seq)
    × (retcode ≡ f.retcode)
Delivered lib link f (to_negotiation g) =
    (g ≡ f) × (link.negotiating ≡ true) × ((f.cmd == sess_key_neg_resp) ≡ true)
Delivered lib link f ignored =
    ((f.cmd == heart_beat) ≡ true)
    ⊎ (f.auth_ok ≡ false)
    ⊎ (inbound_payload lib link f.payload ≡ none)

by_payload :
    (lib : CryptoLib) (link : Link) (f : Frame) (o : Option Bytes)
    → inbound_payload lib link f.payload ≡ o
    → f.auth_ok ≡ true
    → (f.cmd == heart_beat) ≡ false
    → Delivered lib link f
        (elim o [ none ↦ ignored | some bs ↦ response_data link.dev_id f.cmd f.seq f.retcode bs ])
by_payload lib link f none e valid beat = inr (inr e)
by_payload lib link f (some bs) e valid beat = (valid, beat, e, refl, refl, refl, refl)

by_tests :
    (lib : CryptoLib) (link : Link) (f : Frame) (negotiating answer beat valid : Bool)
    → link.negotiating ≡ negotiating
    → (f.cmd == sess_key_neg_resp) ≡ answer
    → (f.cmd == heart_beat) ≡ beat
    → f.auth_ok ≡ valid
    → Delivered lib link f (
        if negotiating && answer
        then to_negotiation f
        else if beat
        then ignored
        else if not valid && true
        then ignored
        else elim (inbound_payload lib link f.payload) [
          | none ↦ ignored
          | some bs ↦ response_data link.dev_id f.cmd f.seq f.retcode bs
        ])
by_tests lib link f true true beat valid n a b v = (refl, n, a)
by_tests lib link f true false true valid n a b v = inl b
by_tests lib link f true false false true n a b v = by_payload lib link f _ refl v b
by_tests lib link f true false false false n a b v = inr (inl v)
by_tests lib link f false answer true valid n a b v = inl b
by_tests lib link f false answer false true n a b v = by_payload lib link f _ refl v b
by_tests lib link f false answer false false n a b v = inr (inl v)

-- What the reader of a link with a key does with a frame. It hands only the answer of a running
-- negotiation to the negotiation. What it tells the owner comes from a frame with a valid trailer
-- that is no heartbeat, and is its numbers and its payload as `inbound_payload` opens it. It drops
-- a frame only if it is a heartbeat, its trailer is not valid or its payload cannot be opened.
pub reader_turn-Delivered :
    (lib : CryptoLib) (now : ℕ) (f : Frame) (link : Link)
    → is_legacy link.proto ≡ false
    → Delivered lib link f ((reader_turn lib now f link).0)
unfolding reader_turn inbound_payload
reader_turn-Delivered lib now f link keyed = rw keyed (
    by_tests lib link f link.negotiating (f.cmd == sess_key_neg_resp) (f.cmd == heart_beat)
      f.auth_ok refl refl refl refl)
