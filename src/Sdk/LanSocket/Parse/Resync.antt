-- ===== src/Sdk/LanSocket/Parse/Resync.antt =====
-- sdk/lan_socket.py: the resync loop finds the first prefix of the stream.
use mathlib.Core.List.{append_assoc}
use pypopur.Prelude.{
  arith, false, ◌≤◌, sym, true, ◌<◌, none, ◌≡◌, ◌||◌, ◌++◌, inl, Option, suc, ◌+◌, ap, some, Bool,
  ◌∙◌, refl, ◌⊎◌, ℕ, zero, ◌∷◌, List, inr, [], length, take, take-append-drop, length-drop,
  length-take, drop, leb, Option-cases, Bool-cases, and_split, some_inj, ◌==◌, lt→ltb,
  if◌then◌else◌,
}
use pypopur.Py.{Bytes, raise}
use pypopur.Sdk.HexUtil.{contact, from_big_endian}
use pypopur.Sdk.LanSocket.{
  got, read_at_prefix, Ciphers, be32, here, word, Conn, prefix_55aa, read_frame, skip, failed,
  slide, Frame, and_then, resync, Scan, ask_window, dropped, prefix_6699, next_index, find,
  starts_with, content, Read, scan, eof,
}
use pypopur.Sdk.LanSocket.Parse.{
  seek, parse_55aa, read_55aa_lem, parse_found, outcome, parse_frame, read_6699_lem, parse_6699,
  prefixed, parse_at,
}
use pypopur.Sdk.LanSocket.Stream.{take_front, fill_lem, Flowing, drop_front}

starts_with-length : (p bs : Bytes) → starts_with p bs ≡ true → length p ≤ length bs
unfolding starts_with
starts_with-length [] bs h = omega arith
starts_with-length (x ∷ p) [] h = cc
starts_with-length (x ∷ p) (b ∷ bs) h =
    omega (arith, starts_with-length p bs (and_split (x == b) (starts_with p bs) h).1)

starts_with-append :
    (p bs rest : Bytes) → length p ≤ length bs → starts_with p (bs ++ rest) ≡ starts_with p bs
unfolding starts_with
starts_with-append [] bs rest h = refl
starts_with-append (x ∷ p) [] rest h = absurd (omega arith)
starts_with-append (x ∷ p) (b ∷ bs) rest h = rw (starts_with-append p bs rest (omega arith)) refl

-- A first position, taken apart: at once, or one later than that of the rest.
position_cases :
    (here_too : Bool) (later : Option ℕ) (i : ℕ)
    → (if here_too then some 0 else next_index later) ≡ some i
    → ((here_too ≡ true) × (i ≡ 0))
      ⊎ ((here_too ≡ false) × ((j : ℕ) × (later ≡ some j) × (i ≡ suc j)))
position_cases true later i h = ground arith
position_cases false none i h = ground arith
position_cases false (some j) i h = inr (refl, (j, refl, sym (some_inj h)))

find-length : (p bs : Bytes) (i : ℕ) → find p bs ≡ some i → i + length p ≤ length bs
unfolding find
find-length p [] i h = ground (arith, starts_with-length p [])
find-length p (b ∷ bs) i h = elim (position_cases (starts_with p (b ∷ bs)) (find p bs) i h) [
  | inl (at_once, e) ↦ omega (arith, starts_with-length p (b ∷ bs) at_once)
  | inr (passed, (j, found, e)) ↦ omega (arith, find-length p bs j found)
]

-- The lesser of two positions.
abbrev first : Option ℕ → Option ℕ → Option ℕ
first none j = j
first (some i) none = some i
first (some i) (some j) = some (if leb i j then i else j)

abbrev decide : Option ℕ → Scan
decide none = slide
decide (some zero) = here
decide (some (suc i)) = skip (suc i)

scan-decide : (a b : Option ℕ) → scan a b ≡ decide (first a b)
unfolding scan
scan-decide none none = refl
scan-decide none (some zero) = refl
scan-decide none (some (suc j)) = ground arith
scan-decide (some zero) none = refl
scan-decide (some (suc i)) none = ground arith
scan-decide (some zero) (some j) = ground arith
scan-decide (some (suc i)) (some zero) = ground arith
scan-decide (some (suc i)) (some (suc j)) = ground arith

prefixed-append : (bs rest : Bytes) → 4 ≤ length bs → prefixed (bs ++ rest) ≡ prefixed bs
prefixed-append bs rest h =
    rw
      (
        starts_with-append (be32 prefix_55aa) bs rest h,
        starts_with-append (be32 prefix_6699) bs rest h,
      )
      refl

abbrev first_prefix : Bytes → Option ℕ
first_prefix bs = first (find (be32 prefix_55aa) bs) (find (be32 prefix_6699) bs)

first_cons :
    (s t : Bool) (a b : Option ℕ)
    → first (if s then some 0 else next_index a) (if t then some 0 else next_index b)
      ≡ (if s || t then some 0 else next_index (first a b))
first_cons true true a b = refl
first_cons true false a none = refl
first_cons true false a (some j) = ground arith
first_cons false true none b = refl
first_cons false true (some i) b = ground arith
first_cons false false none b = refl
first_cons false false (some i) none = refl
first_cons false false (some i) (some j) = ground arith

first_prefix_cons :
    (b : ℕ) (bs : Bytes)
    → first_prefix (b ∷ bs) ≡ (if prefixed (b ∷ bs) then some 0 else next_index (first_prefix bs))
unfolding find
first_prefix_cons b bs = first_cons _ _ _ _

first_split : (a b : Option ℕ) (i : ℕ) → first a b ≡ some i → (a ≡ some i) ⊎ (b ≡ some i)
first_split none b i h = inr h
first_split (some j) none i h = inl h
first_split (some j) (some k) i h = ground arith

first_prefix-length : (bs : Bytes) (i : ℕ) → first_prefix bs ≡ some i → i + 4 ≤ length bs
first_prefix-length bs i h = elim (first_split _ _ i h) [
  | inl e ↦ find-length (be32 prefix_55aa) bs i e
  | inr e ↦ find-length (be32 prefix_6699) bs i e
]

seek-first_prefix :
    (bs rest : Bytes) (i : ℕ)
    → first_prefix bs ≡ some i
    → seek (bs ++ rest) ≡ some (drop i (bs ++ rest))
unfolding seek
seek-first_prefix [] rest i h = absurd (omega (arith, first_prefix-length [] i h))
seek-first_prefix (b ∷ bs) rest i h =
    let same = prefixed-append (b ∷ bs) rest (omega (arith, first_prefix-length (b ∷ bs) i h)) in
    elim (position_cases (prefixed (b ∷ bs)) (first_prefix bs) i
      (sym (first_prefix_cons b bs) ∙ h)) [
        | inl (at_once, e) ↦ rw (same ∙ at_once, e) refl
        | inr (passed, (j, found, e)) ↦ rw (same ∙ passed, e) (seek-first_prefix bs rest j found)
      ]

position_none :
    (now : Bool) (later : Option ℕ)
    → (if now then some 0 else next_index later) ≡ none
    → now ≡ false
position_none true later h = cc
position_none false later h = refl

-- A window without a prefix starts with none, and its first byte can go.
seek_slide :
    (b : ℕ) (bs rest : Bytes)
    → 4 ≤ length (b ∷ bs)
    → first_prefix (b ∷ bs) ≡ none
    → seek (b ∷ bs ++ rest) ≡ seek (bs ++ rest)
unfolding seek
seek_slide b bs rest long h =
    let passed = position_none _ _ (sym (first_prefix_cons b bs) ∙ h) in
    rw (prefixed-append (b ∷ bs) rest long ∙ passed) refl

chosen_cases :
    (now : Bool) (bs : Bytes) (later : Option Bytes) (found : Bytes)
    → (if now then some bs else later) ≡ some found
    → ((now ≡ true) × (bs ≡ found)) ⊎ (later ≡ some found)
chosen_cases true bs later found h = inl (refl, some_inj h)
chosen_cases false bs later found h = inr h

seek-length :
    (bs found : Bytes) → seek bs ≡ some found → (length found ≤ length bs) × (prefixed found ≡ true)
unfolding seek
seek-length [] found h = cc
seek-length (b ∷ bs) found h = elim (chosen_cases (prefixed (b ∷ bs)) (b ∷ bs) (seek bs) found h) [
  | inl (e, same) ↦ rw (← same) (omega arith, e)
  | inr later ↦ let (short, e) = seek-length bs found later in (omega arith, e)
]

prefixed-word :
    (bs : Bytes) → prefixed bs ≡ true → (word 0 bs ≡ prefix_55aa) ⊎ (word 0 bs ≡ prefix_6699)
unfolding starts_with word from_big_endian
prefixed-word [] h = cc
prefixed-word (a ∷ []) h = ground arith
prefixed-word (a ∷ b ∷ []) h = ground arith
prefixed-word (a ∷ b ∷ c ∷ []) h = ground arith
prefixed-word (a ∷ b ∷ c ∷ d ∷ bs) h = ground arith

-- The loop stops at the first prefix of the stream, four bytes of it in the buffer; or the stream has
-- none.
abbrev Synced : Bytes → Read (Unit {0}) → Type 0
Synced bs result =
    ((after : Conn) × (result ≡ got tt after)
      × (4 ≤ length after.buf)
      × Flowing after.sock
      × (seek bs ≡ some (content after)))
    ⊎ ((after : Conn) × (result ≡ failed eof after)
        × ((found : Bytes) → seek bs ≡ some found → length found < 8))

-- What a round does with a filled buffer.
round : ℕ → Conn → Read (Unit {0})
unfolding resync find scan
round fuel conn =
    elim (scan (find (be32 prefix_55aa) (take 8 conn.buf))
      (find (be32 prefix_6699) (take 8 conn.buf))) [
        | here ↦ got tt conn
        | skip i ↦ got tt (dropped i conn)
        | slide ↦ resync fuel (dropped 1 conn)
      ]

Synced-same :
    (bs rest : Bytes) {result : Read (Unit {0})}
    → seek bs ≡ seek rest
    → Synced rest result
    → Synced bs result
Synced-same bs rest e (inl (after, ends, long, flows, found)) =
    inl (after, ends, long, flows, e ∙ found)
Synced-same bs rest e (inr (after, ends, short)) =
    inr (after, ends, λ found h. short found (sym e ∙ h))

window_lem : (n : ℕ) (buf rest : Bytes) → buf ++ rest ≡ take n buf ++ (drop n buf ++ rest)
window_lem n buf rest =
    ap (λ (bs : Bytes). bs ++ rest) (sym (take-append-drop n buf))
    ∙ append_assoc (take n buf) (drop n buf) rest

stop_lem :
    (buf : Bytes) (sock : List Bytes) (i : ℕ)
    → 8 ≤ length buf
    → Flowing sock
    → first_prefix (take 8 buf) ≡ some i
    → Synced (buf ++ contact sock) (got tt (record { buf = drop i buf; sock = sock }))
stop_lem buf sock i long flowing e =
    let inside : i + 4 ≤ length buf =
      omega (arith, first_prefix-length (take 8 buf) i e, length-take 8 buf) in
    inl (
      record { buf = drop i buf; sock = sock },
      refl,
      omega (arith, length-drop i buf),
      flowing,
      rw (← drop_front i buf (contact sock) (omega arith), window_lem 8 buf (contact sock))
          (seek-first_prefix (take 8 buf) _ i e),
    )

round_lem :
    (fuel b : ℕ) (buf : Bytes) (sock : List Bytes)
    → 8 ≤ length (b ∷ buf)
    → Flowing sock
    → Synced (buf ++ contact sock) (resync fuel (record { buf = buf; sock = sock }))
    → Synced (b ∷ buf ++ contact sock) (round fuel (record { buf = b ∷ buf; sock = sock }))
unfolding round
round_lem fuel b [] sock long flowing again = absurd (omega arith)
round_lem fuel b (c ∷ buf) sock long flowing again =
    elim (Option-cases (first_prefix (b ∷ take 7 (c ∷ buf)))) [
      | inl e ↦
          let window = window_lem 7 (c ∷ buf) (contact sock) in
          let full : 4 ≤ length (b ∷ take 7 (c ∷ buf)) = omega (arith, length-take 7 (c ∷ buf)) in
          let gone : seek (b ∷ c ∷ buf ++ contact sock) ≡ seek (c ∷ buf ++ contact sock) =
            ap (λ (bs : Bytes). seek (b ∷ bs)) window
            ∙ seek_slide b (take 7 (c ∷ buf)) _ full e
            ∙ ap seek (sym window) in
          rw (round, scan-decide _ _, e)
            (Synced-same (b ∷ c ∷ buf ++ contact sock) (c ∷ buf ++ contact sock) gone again)
      | inr (zero, e) ↦
          rw (round, scan-decide _ _, e) (stop_lem (b ∷ c ∷ buf) sock zero long flowing e)
      | inr (suc i, e) ↦
          rw (round, scan-decide _ _, e) (stop_lem (b ∷ c ∷ buf) sock (suc i) long flowing e)
    ]

abbrev Ends : ℕ → Type 0
Ends fuel =
    (buf : Bytes) (sock : List Bytes)
    → length (buf ++ contact sock) < fuel
    → Flowing sock
    → Synced (buf ++ contact sock) (resync fuel (record { buf = buf; sock = sock }))

filled_lem :
    (fuel : ℕ) (buf : Bytes) (sock : List Bytes)
    → Ends fuel
    → length (buf ++ contact sock) ≤ fuel
    → 8 ≤ length buf
    → Flowing sock
    → Synced (buf ++ contact sock) (round fuel (record { buf = buf; sock = sock }))
filled_lem fuel [] sock ends enough long flowing = absurd (omega arith)
filled_lem fuel (b ∷ buf) sock ends enough long flowing =
    round_lem fuel b buf sock long flowing (ends buf sock (omega arith) flowing)

-- With more fuel than bytes the loop ends.
resync_lem : (fuel : ℕ) → Ends fuel
unfolding resync round
resync_lem zero buf sock enough flowing = absurd (omega arith)
resync_lem (suc fuel) buf sock enough flowing =
    elim (fill_lem ask_window 8 8 buf sock (λ have h. omega arith) (omega arith) flowing) [
      | inl (after, ends, long, (on, same)) ↦
          let small : length (content after) ≤ fuel = rw same (omega arith) in
          rw (ends, ← same) (filled_lem fuel after.buf after.sock (resync_lem fuel) small long on)
      | inr (after, ends, short) ↦
          inr (after, rw ends refl, λ found h. omega (arith, (seek-length _ found h).0))
    ]

module _ (ciphers : Ciphers) (key : Option Bytes) (no_retcode : Bool) where
  short_lem : (bs : Bytes) → length bs < 8 → parse_at ciphers key no_retcode bs ≡ raise eof
  unfolding parse_at parse_55aa parse_6699
  short_lem bs h = elim (Bool-cases (word 0 bs == prefix_55aa)) [
    | inl e ↦ rw (e, lt→ltb (length bs) 16 (omega arith)) refl
    | inr e ↦ rw (e, lt→ltb (length bs) 18 (omega arith)) refl
  ]

  read_at_prefix_lem :
      (conn : Conn)
      → 4 ≤ length conn.buf
      → Flowing conn.sock
      → prefixed (content conn) ≡ true
      → outcome (read_at_prefix ciphers key no_retcode conn)
        ≡ parse_at ciphers key no_retcode (content conn)
  unfolding read_at_prefix parse_at word
  read_at_prefix_lem conn long flowing h =
      let same : word 0 conn.buf ≡ word 0 (content conn) =
        ap (from_big_endian 0) (sym (take_front 4 conn.buf (contact conn.sock) long)) in
      elim (prefixed-word (content conn) h) [
        | inl e ↦ rw (same, e) (read_55aa_lem ciphers key no_retcode conn flowing)
        | inr e ↦ rw (same, e) (read_6699_lem ciphers key no_retcode conn flowing)
      ]

  -- A stream that comes in any chunks is read as the parser parses it whole.
  pub read_frame-parse_frame :
      (conn : Conn)
      → Flowing conn.sock
      → outcome (read_frame ciphers key no_retcode conn)
        ≡ parse_frame ciphers key no_retcode (content conn)
  unfolding read_frame parse_frame
  read_frame-parse_frame conn flowing =
      elim (resync_lem (suc (length (content conn))) conn.buf conn.sock (omega arith) flowing) [
        | inl (after, ends, long, flows, found) ↦
            ap (λ (r : Read (Unit {0})). outcome (and_then r go_on)) ends
            ∙ read_at_prefix_lem after long flows
                (seek-length (content conn) (content after) found).1
            ∙ sym (ap (parse_found ciphers key no_retcode) found)
        | inr (after, ends, short) ↦
            ap (λ (r : Read (Unit {0})). outcome (and_then r go_on)) ends
            ∙ sym (not_found (seek (content conn)) short)
      ]
    where
      go_on : Unit {0} → Conn → Read Frame
      go_on u at_prefix = read_at_prefix ciphers key no_retcode at_prefix

      not_found :
          (o : Option Bytes)
          → ((bs : Bytes) → o ≡ some bs → length bs < 8)
          → parse_found ciphers key no_retcode o ≡ raise eof
      not_found none short = refl
      not_found (some bs) short = short_lem bs (short bs refl)
