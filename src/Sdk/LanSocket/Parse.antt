-- ===== src/Sdk/LanSocket/Parse.antt =====
-- sdk/lan_socket.py: a parser of the whole stream, and the reader of a frame's body against it.
pub mod Resync
use pypopur.Prelude.{
  ◌∷◌, [], ◌∙◌, some, Bool, ◌||◌, Option, false, ◌≡◌, ℕ, ap, arith, none, refl, inr, inl, drop,
  length, take, lt→ltb, Bool-cases, ◌==◌, ltb, if◌then◌else◌,
}
use pypopur.Py.{raise, ok, ◌>>=◌, Result, Bytes}
use pypopur.Sdk.LanSocket.{
  open_6699, read_exact, read_55aa, got, read_6699, over_cap, be32, eof, Read, prefix_6699, Ciphers,
  and_then, Frame, Conn, ReadError, max_payload_length, prefix_55aa, failed, word, short_body,
  open_55aa, content, starts_with, least_body,
}
use pypopur.Sdk.LanSocket.Stream.{Flowing, read_exact_lem}

abbrev pub prefixed : Bytes → Bool
prefixed bs = starts_with (be32 prefix_55aa) bs || starts_with (be32 prefix_6699) bs

-- The stream from its first prefix on.
unfoldable pub seek : Bytes → Option Bytes
unfolding starts_with
seek [] = none
seek (b ∷ bs) = let later = seek bs in if prefixed (b ∷ bs) then some (b ∷ bs) else later

-- The first `n` bytes and what follows them.
abbrev pub split_at : ℕ → Bytes → Result ReadError (Bytes × Bytes)
split_at n bs = if ltb (length bs) n then raise eof else ok (take n bs, drop n bs)

-- What a read gives, and the stream after it.
abbrev pub outcome : Read Frame → Result ReadError (Frame × Bytes)
outcome (got frame conn) = ok (frame, content conn)
outcome (failed e conn) = raise e

module _ (ciphers : Ciphers) (key : Option Bytes) (no_retcode : Bool) where
  unfoldable pub parse_55aa : Bytes → Result ReadError (Frame × Bytes)
  unfolding word open_55aa
  parse_55aa bs = split_at 16 bs >>= λ (h : Bytes × Bytes).
      if ltb max_payload_length (word 12 h.0)
      then raise over_cap
      else (split_at (word 12 h.0) h.1 >>= λ (b : Bytes × Bytes).
          if ltb (length b.0) (least_body ciphers key no_retcode)
          then raise short_body
          else ok (open_55aa ciphers key no_retcode h.0 b.0, b.1))

  unfoldable pub parse_6699 : Bytes → Result ReadError (Frame × Bytes)
  unfolding word open_6699
  parse_6699 bs = split_at 18 bs >>= λ (h : Bytes × Bytes).
      if ltb max_payload_length (word 14 h.0)
      then raise over_cap
      else (split_at (word 14 h.0) h.1 >>= λ (b : Bytes × Bytes).
          split_at 4 b.1 >>= λ (s : Bytes × Bytes).
          ok (open_6699 ciphers key no_retcode h.0 b.0, s.1))

  unfoldable pub parse_at : Bytes → Result ReadError (Frame × Bytes)
  unfolding word parse_55aa parse_6699
  parse_at bs = if word 0 bs == prefix_55aa then parse_55aa bs else parse_6699 bs

  abbrev pub parse_found : Option Bytes → Result ReadError (Frame × Bytes)
  parse_found none = raise eof
  parse_found (some found) = parse_at found

  unfoldable pub parse_frame : Bytes → Result ReadError (Frame × Bytes)
  unfolding seek
  parse_frame bs = parse_found (seek bs)

  -- Reading on from a read of `n` bytes is parsing on from the first `n`.
  and_then_lem :
      (n : ℕ) (conn : Conn) (f : Bytes → Conn → Read Frame)
      (g : Bytes × Bytes → Result ReadError (Frame × Bytes))
      → Flowing conn.sock
      → ((bs : Bytes) (after : Conn)
          → Flowing after.sock
          → outcome (f bs after) ≡ g (bs, content after))
      → outcome (and_then (read_exact n conn) f) ≡ (split_at n (content conn) >>= g)
  and_then_lem n conn f g flowing on = elim (read_exact_lem n conn flowing) [
    | inl (after, ends, long, flows, rest) ↦
        let enough : ltb (length (content conn)) n ≡ false = ground arith in
        rw (ends, enough)
          (on (take n (content conn)) after flows
            ∙ ap (λ (bs : Bytes). g (take n (content conn), bs)) rest)
    | inr (after, ends, short) ↦ rw (ends, lt→ltb _ _ short) refl
  ]

  pub read_55aa_lem :
      (conn : Conn)
      → Flowing conn.sock
      → outcome (read_55aa ciphers key no_retcode conn) ≡ parse_55aa (content conn)
  unfolding read_55aa parse_55aa
  read_55aa_lem conn flowing = and_then_lem 16 conn _ _ flowing (λ hdr at_body flows.
      elim (Bool-cases (ltb max_payload_length (word 12 hdr))) [
        | inl over ↦ rw over refl
        | inr fine ↦ rw fine (
            and_then_lem (word 12 hdr) at_body _ _ flows (λ body after flows_after.
              elim (Bool-cases (ltb (length body) (least_body ciphers key no_retcode))) [
                | inl short ↦ rw short refl
                | inr long ↦ rw long refl
              ]))
      ])

  pub read_6699_lem :
      (conn : Conn)
      → Flowing conn.sock
      → outcome (read_6699 ciphers key no_retcode conn) ≡ parse_6699 (content conn)
  unfolding read_6699 parse_6699
  read_6699_lem conn flowing = and_then_lem 18 conn _ _ flowing (λ hdr at_body flows.
      elim (Bool-cases (ltb max_payload_length (word 14 hdr))) [
        | inl over ↦ rw over refl
        | inr fine ↦ rw fine (
            and_then_lem (word 14 hdr) at_body _ _ flows (λ body at_suffix flows_suffix.
              and_then_lem 4 at_suffix _ _ flows_suffix (λ suffix after flows_after. refl)))
      ])
