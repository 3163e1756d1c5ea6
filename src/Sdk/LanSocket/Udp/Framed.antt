-- ===== src/Sdk/LanSocket/Udp/Framed.antt =====
-- sdk/lan_socket.py: a packed frame in a UDP packet.
use pypopur.Prelude.{
  ◌+◌, ℕ, ap, false, ◌≡◌, none, arith, ◌<◌, ◌++◌, Option, true, ◌^◌, ◌∙◌, some, List, ◌-◌, refl,
  ◌≤◌, length, length-append, drop, take, ltb, leb, ltb→lt,
}
use pypopur.Dps.System.Encode.{payload}
use pypopur.Py.{Bytes}
use pypopur.Sdk.LanSocket.{
  trailer, word, prefix_55aa, suffix_55aa, prefix_6699, header_55aa, be32, find, Ciphers, pack_55aa,
  starts_with,
}
use pypopur.Sdk.LanSocket.RoundTrip.{
  header_words, pack_keyed_lem, CipherLaws, take-append, take_of, word_lem,
}
use pypopur.Sdk.LanSocket.Udp.{unpack, framed, unpack_55aa, unpack_at}

at_start :
    (ciphers : Ciphers) (keys : List Bytes) (bs : Bytes) (p66 : Option ℕ)
    → unpack_at ciphers keys bs (some 0) p66 ≡ unpack_55aa bs
at_start ciphers keys bs none = refl
at_start ciphers keys bs (some j) = let first : leb 0 j ≡ true = ground arith in rw first refl

found_55aa :
    (seq cmd size : ℕ) (bs : Bytes)
    → find (be32 prefix_55aa) (header_55aa seq cmd size ++ bs) ≡ some 0
unfolding find starts_with
found_55aa seq cmd size bs = refl

module _ (ciphers : Ciphers) (laws : CipherLaws ciphers) where
  unpack_55aa_lem :
      (seq cmd size : ℕ) (full rest : Bytes)
      → seq < 2 ^ 32
      → cmd < 2 ^ 32
      → size < 2 ^ 32
      → length full ≡ size
      → 8 ≤ size
      → unpack_55aa (header_55aa seq cmd size ++ (full ++ rest))
        ≡ framed cmd (word 0 full) (drop 4 (take (size - 8) full))
  unfolding unpack_55aa
  unpack_55aa_lem seq cmd size full rest small_seq small_cmd small e long =
      let (is_seq, is_cmd, is_size) =
        header_words ciphers laws seq cmd size small_seq small_cmd small in
      let one : ltb (length (header_55aa seq cmd size ++ (full ++ rest))) 24 ≡ false =
        ground (arith, length-append full rest) in
      let two : ltb (length (header_55aa seq cmd size ++ (full ++ rest))) (16 + size) ≡ false =
        ground (arith, length-append full rest) in
      let three : ltb (length full) 8 ≡ false = ground arith in
      rw (one, is_size, two, take_of size full rest e, three, is_cmd, e) refl

  full_lem :
      (retcode : ℕ) (payload tail : Bytes)
      → retcode < 2 ^ 32
      → (let body = be32 retcode ++ payload in
          (word 0 (body ++ tail) ≡ retcode)
          × (drop 4 (take (length body) (body ++ tail)) ≡ payload))
  full_lem retcode payload tail small =
      let body : Bytes = be32 retcode ++ payload in
      (word_lem retcode (payload ++ tail) small, ap (drop 4) (take-append body tail))

  -- A 55AA frame with a return code that was packed without a key is read from the start of a UDP
  -- packet, whatever follows it there and whatever keys there are: its command, its return code and
  -- its payload.
  pub unpack-pack_55aa :
      (keys : List Bytes) (seq cmd retcode : ℕ) (payload frame rest : Bytes)
      → pack_55aa ciphers seq cmd payload none (some retcode) ≡ some frame
      → unpack ciphers keys (frame ++ rest) ≡ framed cmd retcode payload
  unfolding unpack pack_55aa
  unpack-pack_55aa keys seq cmd retcode payload frame rest packed =
      let body : Bytes = be32 retcode ++ payload in
      let size : ℕ = length body + 8 in
      let covered : Bytes = header_55aa seq cmd size ++ body in
      let tail : Bytes = trailer ciphers none covered ++ be32 suffix_55aa in
      let (small_code, small_seq, small_cmd, small_size, e) =
        pack_keyed_lem ciphers laws seq cmd payload none (some retcode) frame packed in
      let packet : Bytes = header_55aa seq cmd size ++ (body ++ tail ++ rest) in
      let shape : frame ++ rest ≡ packet = rw e refl in
      let full : length (body ++ tail) ≡ size = length-append body tail in
      let back : size - 8 ≡ length body = omega arith in
      let (is_code, is_payload) = full_lem retcode payload tail (ltb→lt _ _ small_code) in
      ap (unpack ciphers keys) shape
      ∙ ap (λ p. unpack_at ciphers keys packet p (find (be32 prefix_6699) packet))
          (found_55aa seq cmd size (body ++ tail ++ rest))
      ∙ at_start ciphers keys packet (find (be32 prefix_6699) packet)
      ∙ unpack_55aa_lem seq cmd size (body ++ tail) rest small_seq small_cmd small_size full
          (omega arith)
      ∙ rw (back, is_code, is_payload) refl
