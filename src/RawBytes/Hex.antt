-- ===== src/RawBytes/Hex.antt =====
-- The hexadecimal text that the program writes is read back byte for byte.
use pypopur.Prelude.{
  Option, refl, ◌∷◌, false, Bool, ℕ, ◌%◌, ◌/◌, true, not, ◌&&◌, List, ◌<◌, ◌≡◌, [], none, some,
  arith, All, ◌==◌,
}
use pypopur.Prelude.Bits.{all_below_sound, all_below}
use pypopur.Py.{str}
use pypopur.Py.Hex.{hex_char, hex}
use pypopur.Py.Text.{
  strip, lower, starts_with_char, int_of_text, without_spaces, is_space, lower_char,
}
use pypopur.RawBytes.{
  decode_to_bytes, decode_hex_string, decode_json_array_string, in_byte_range, hex_pairs,
}

is_byte : ℕ → Option ℕ → Bool
is_byte b none = false
is_byte b (some n) = n == b

-- What one pair of digits must do to be read as the byte `b`.
pair_reads : ℕ → Bool
unfolding is_byte
pair_reads b =
    let c = hex_char (b / 16) in
    let d = hex_char (b % 16) in
    not (is_space c)
    && not (is_space d)
    && not (c == b'[')
    && lower_char c == c
    && lower_char d == d
    && is_byte b (in_byte_range (int_of_text 16 (c ∷ d ∷ [])))

pair_table : all_below 256 pair_reads ≡ true
unfolding all_below pair_reads hex_char is_space lower_char in_byte_range int_of_text
pair_table = refl

record PairReads (b : ℕ) : Type 0 where
  first_space : is_space (hex_char (b / 16)) ≡ false
  second_space : is_space (hex_char (b % 16)) ≡ false
  no_bracket : (hex_char (b / 16) == b'[') ≡ false
  first_lower : lower_char (hex_char (b / 16)) ≡ hex_char (b / 16)
  second_lower : lower_char (hex_char (b % 16)) ≡ hex_char (b % 16)
  reads : in_byte_range (int_of_text 16 (hex_char (b / 16) ∷ hex_char (b % 16) ∷ [])) ≡ some b

is_byte_lem : (b : ℕ) (o : Option ℕ) → is_byte b o ≡ true → o ≡ some b
unfolding is_byte
is_byte_lem b none h = cc
is_byte_lem b (some n) h = ground arith

pair_facts : (b : ℕ) → pair_reads b ≡ true → PairReads b
unfolding pair_reads
pair_facts b h = record {
  first_space = ground arith;
  second_space = ground arith;
  no_bracket = ground arith;
  first_lower = ground arith;
  second_lower = ground arith;
  reads = is_byte_lem b _ (ground arith);
}

byte_reads : (b : ℕ) → b < 256 → PairReads b
byte_reads b h = pair_facts b (all_below_sound 256 pair_reads b pair_table h)

-- The text has no spaces and no capitals.
compact-hex : (bs : List ℕ) → All (λ b. b < 256) bs → lower (without_spaces (hex bs)) ≡ hex bs
unfolding lower without_spaces hex
compact-hex [] h = refl
compact-hex (b ∷ bs) (hb, hs) =
    let p = byte_reads b hb in
    rw (p.first_space, p.second_space, p.first_lower, p.second_lower, compact-hex bs hs) refl

hex_pairs-hex : (bs : List ℕ) → All (λ b. b < 256) bs → hex_pairs (hex bs) ≡ some bs
unfolding hex_pairs hex
hex_pairs-hex [] h = refl
hex_pairs-hex (b ∷ bs) (hb, hs) = rw ((byte_reads b hb).reads, hex_pairs-hex bs hs) refl

starts_with_char-strip :
    (x c : ℕ) (t : List ℕ) → is_space c ≡ false → starts_with_char x (strip (c ∷ t)) ≡ (c == x)
unfolding starts_with_char strip
starts_with_char-strip x c t e = rw e (rw e refl)

-- It does not begin like a list.
no_array : (bs : List ℕ) → All (λ b. b < 256) bs → decode_json_array_string (hex bs) ≡ none
unfolding decode_json_array_string
no_array [] h = unfold hex strip starts_with_char in refl
no_array (b ∷ bs) (hb, hs) =
    let p = byte_reads b hb in
    unfold hex in
    rw
      (
        starts_with_char-strip b'[' (hex_char (b / 16)) (hex_char (b % 16) ∷ hex bs) p.first_space,
        p.no_bracket,
      )
      refl

-- The hexadecimal text of bytes is no list of integers to `decode_json_array_string`, and
-- `decode_to_bytes` reads it as the same bytes.
pub decode_to_bytes-hex :
    (bs : List ℕ)
    → All (λ b. b < 256) bs
    → (decode_json_array_string (hex bs) ≡ none) × (decode_to_bytes (str (hex bs)) ≡ some bs)
unfolding decode_to_bytes decode_hex_string
decode_to_bytes-hex bs h =
    (no_array bs h, rw (no_array bs h, compact-hex bs h, hex_pairs-hex bs h) refl)
