-- ===== src/Tests/Lan.antt =====
-- The frames of the LAN link and the security content, on concrete bytes.
use pypopur.Prelude.{
  true, ◌∷◌, ap, some, ◌∙◌, ◌-◌, [], false, ◌+◌, refl, arith, ◌++◌, ◌≡◌, ◌≤◌, none, sym, length,
  length-append, take, replicate, drop, some_inj,
}
use pypopur.Py.{ok, Bytes}
use pypopur.Sdk.HexUtil.{contact}
use pypopur.Sdk.LanSocket.{
  pack_55aa, read_frame, header_6699, suffix_6699, Conn, pack_6699, Ciphers, content, be32,
  pack_keyed,
}
use pypopur.Sdk.LanSocket.Gcm.{read_frame-pack_6699}
use pypopur.Sdk.LanSocket.Keys.{read_layout, le_word, java_hash, read_keys_from_content}
use pypopur.Sdk.LanSocket.Parse.{outcome, parse_frame}
use pypopur.Sdk.LanSocket.Parse.Resync.{read_frame-parse_frame}
use pypopur.Sdk.LanSocket.RoundTrip.{read_frame-pack_55aa, take_of, CipherLaws}

abbrev tag : Bytes
tag = replicate 16 1

-- Ciphers that hide nothing.
abbrev pub toy_ciphers : Ciphers
toy_ciphers = record {
  crc32 = λ bs. length bs;
  hmac_sha256 = λ key bs. replicate 32 7;
  gcm_encrypt = λ key iv bs aad. some (bs ++ tag);
  gcm_decrypt = λ key iv bs aad. some (take (length bs - 16) bs);
}

length-tagged : (bs ct : Bytes) → some (bs ++ tag) ≡ some ct → length ct ≡ length bs + 16
length-tagged bs ct e = ap length (sym (some_inj e)) ∙ length-append bs tag

untagged : (bs ct : Bytes) → some (bs ++ tag) ≡ some ct → take (length ct - 16) ct ≡ bs
untagged bs ct e =
    let cut : length bs ≡ length (bs ++ tag) - 16 = omega (arith, length-append bs tag) in
    rw (← some_inj e, take_of (length (bs ++ tag) - 16) bs tag cut) refl

pub toy_ciphers-CipherLaws : CipherLaws toy_ciphers
toy_ciphers-CipherLaws = record {
  length-hmac_sha256 = λ key bs. refl;
  length-gcm_encrypt = λ key iv bs aad ct e. length-tagged bs ct e;
  gcm_decrypt-gcm_encrypt = λ key iv bs aad ct e. ap some (untagged bs ct e);
}

abbrev pub frame_55aa : Bytes
frame_55aa =
    0 ∷ 0 ∷ 0x55 ∷ 0xaa ∷ 0 ∷ 0 ∷ 0 ∷ 1 ∷ 0 ∷ 0 ∷ 0 ∷ 7 ∷ 0 ∷ 0 ∷ 0 ∷ 14 ∷ 0 ∷ 0 ∷ 0 ∷ 3 ∷ 9 ∷ 8 ∷ 0
    ∷ 0 ∷ 0 ∷ 22 ∷ 0 ∷ 0 ∷ 0xaa ∷ 0x55 ∷ []

abbrev arriving : Bytes → Conn
arriving frame = record {
  buf = 3 ∷ take 2 frame;
  sock = take 5 (drop 2 frame) ∷ drop 7 frame ∷ (5 ∷ []) ∷ [];
}

pub packed_55aa : pack_55aa toy_ciphers 1 7 (9 ∷ 8 ∷ []) none (some 3) ≡ some frame_55aa
unfolding pack_55aa pack_keyed
packed_55aa = refl

arrives_55aa : content (arriving frame_55aa) ≡ 3 ∷ [] ++ (frame_55aa ++ 5 ∷ [])
unfolding contact
arrives_55aa = refl

read_frame-pack_55aa_example :
    outcome (read_frame toy_ciphers none false (arriving frame_55aa))
    ≡ ok (record { seq = 1; cmd = 7; retcode = 3; payload = 9 ∷ 8 ∷ []; auth_ok = true }, 5 ∷ [])
read_frame-pack_55aa_example =
    read_frame-pack_55aa toy_ciphers toy_ciphers-CipherLaws 1 7 (9 ∷ 8 ∷ []) none (some 3)
      frame_55aa (3 ∷ []) (5 ∷ []) (arriving frame_55aa) refl packed_55aa (omega arith)
      (omega arith, tt) (omega arith, (omega arith, (omega arith, tt))) arrives_55aa

read_frame-parse_frame_example :
    outcome (read_frame toy_ciphers none false (arriving frame_55aa))
    ≡ parse_frame toy_ciphers none false (content (arriving frame_55aa))
read_frame-parse_frame_example =
    read_frame-parse_frame toy_ciphers none false (arriving frame_55aa)
      (omega arith, (omega arith, (omega arith, tt)))

abbrev nonce : Bytes
nonce = replicate 12 4

abbrev frame_6699 : Bytes
frame_6699 =
    header_6699 1 7 34 ++ (nonce ++ (0 ∷ 0 ∷ 0 ∷ 3 ∷ 9 ∷ 8 ∷ [] ++ tag ++ be32 suffix_6699))

packed_6699 : pack_6699 toy_ciphers nonce 1 7 (9 ∷ 8 ∷ []) (6 ∷ []) (some 3) ≡ some frame_6699
unfolding pack_6699
packed_6699 = refl

arrives_6699 : content (arriving frame_6699) ≡ 3 ∷ [] ++ (frame_6699 ++ 5 ∷ [])
unfolding contact
arrives_6699 = refl

read_frame-pack_6699_example :
    outcome (read_frame toy_ciphers (some (6 ∷ [])) false (arriving frame_6699))
    ≡ ok (record { seq = 1; cmd = 7; retcode = 3; payload = 9 ∷ 8 ∷ []; auth_ok = true }, 5 ∷ [])
read_frame-pack_6699_example =
    read_frame-pack_6699 toy_ciphers toy_ciphers-CipherLaws nonce 1 7 (9 ∷ 8 ∷ []) (6 ∷ []) (some 3)
      frame_6699 (3 ∷ []) (5 ∷ []) (arriving frame_6699) refl packed_6699 (omega arith)
      (omega arith, tt) (omega arith, (omega arith, (omega arith, tt))) arrives_6699

-- A header that counts 54 pixels, and 61 of them, all of which are 1.
abbrev bitmap : Bytes
bitmap =
    b'B' ∷ b'M' ∷ 0 ∷ 0x48 ∷ 0 ∷ 0 ∷ 0 ∷ 0 ∷ 0 ∷ 0 ∷ 0xca ∷ 0x47 ∷ 0 ∷ 0 ∷ []
    ++ replicate 14 0
    ++ (24 ∷ 0 ∷ [] ++ replicate 24 0 ++ replicate 61 1)

slack : (le_word 2 bitmap - le_word 0xa bitmap) + 7 ≤ length (drop 0x36 bitmap)
slack = omega arith

bitmap_code : read_keys_from_content (1 ∷ []) bitmap ≡ ok (0x0b, [])
unfolding read_keys_from_content read_layout java_hash
bitmap_code = refl
