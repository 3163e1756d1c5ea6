-- ===== src/Dps/Payload.antt =====
-- Bytes of a payload, as `out[i]` and `out[i] = v` read and write them, and masks on a byte.
-- `out[i]`, inside the payload.
use pypopur.Prelude.{
  Option, [], suc, bit_and, zero, Bool, not, true, some, ◌∷◌, ◌≤◌, refl, ◌≡◌, arith, ℕ, ◌<◌, false,
  ◌&&◌, All, get_or, length, length-set, set, if◌then◌else◌, ltb, ◌==◌,
}
use pypopur.Prelude.Int.{pos, negsuc, ℤ, pos_part}
use pypopur.Codec.{clamp}
use pypopur.Codec.Laws.{All-get_or}
use pypopur.Py.{ok, Result, Bytes, index_error, is_nonzero, Exception, byte_of, raise}

abbrev pub byte : Bytes → ℕ → ℕ
byte out i = get_or out i 0

-- A result for which `raw[needed - 1]` is the last byte that is read: an IndexError if it is not there.
abbrev pub indexed {ℓ} : {A : Type ℓ} → (needed : ℕ) → Bytes → A → Result Exception (Option A)
indexed needed raw a = if ltb (length raw) needed then raise index_error else ok (some a)

pub indexed_lem {ℓ} :
    {A : Type ℓ} (needed : ℕ) (raw : Bytes) (a : A)
    → needed ≤ length raw
    → indexed needed raw a ≡ ok (some a)
indexed_lem needed raw a h =
    let inside : ltb (length raw) needed ≡ false = ground arith in rw inside refl

checked-inj {ℓ} :
    {A : Type ℓ} (outside : Bool) (a b : A)
    → (if outside then raise index_error else ok (some a)) ≡ ok (some b)
    → a ≡ b
checked-inj true a b h = cc
checked-inj false a b h = cc

pub indexed-inj {ℓ} :
    {A : Type ℓ} (needed : ℕ) (raw : Bytes) (a b : A) → indexed needed raw a ≡ ok (some b) → a ≡ b
indexed-inj needed raw a b h = checked-inj (ltb (length raw) needed) a b h

-- `if changed: out[i] = v`
unfoldable pub assign : Bool → ℕ → ℕ → Bytes → Bytes
assign changed i v out = if changed then set out i v else out

-- `bool(b & mask)`
unfoldable pub has_bit : ℕ → ℕ → Bool
has_bit b mask = not (bit_and b mask == 0)

-- `mask if enabled else 0`
abbrev pub flag : ℕ → Bool → ℕ
flag mask enabled = if enabled then mask else 0

-- `int(b)`
abbrev pub int_of_bool : Bool → ℕ
int_of_bool b = if b then 1 else 0

-- `a != b` of Booleans and of integers.
abbrev pub bool_ne : Bool → Bool → Bool
bool_ne true b = not b
bool_ne false b = b

abbrev pub int_ne : ℤ → ℤ → Bool
int_ne (pos a) (pos b) = not (a == b)
int_ne (negsuc a) (negsuc b) = not (a == b)
int_ne (pos a) (negsuc b) = true
int_ne (negsuc a) (pos b) = true

-- A clamped value between 0 and 255, as the byte that it is.
abbrev pub clamp_byte : ℤ → ℤ → ℤ → ℕ
clamp_byte v lo hi = pos_part (clamp v lo hi)

pub bool_ne_lem : (a b : Bool) → bool_ne a b ≡ false → a ≡ b
bool_ne_lem a b h = ground arith

pub int_ne_lem : (a b : ℤ) → int_ne a b ≡ false → a ≡ b
int_ne_lem a b h = ground arith

pub length-assign : (c : Bool) (i v : ℕ) (out : Bytes) → length (assign c i v out) ≡ length out
unfolding assign
length-assign true i v out = length-set out i v
length-assign false i v out = refl

pub get_or-set :
    (xs : Bytes) (i j v d : ℕ)
    → get_or (set xs i v) j d ≡ (if i == j && ltb i (length xs) then v else get_or xs j d)
get_or-set [] i j v d = ground arith
get_or-set (x ∷ xs) zero zero v d = ground arith
get_or-set (x ∷ xs) zero (suc j) v d = ground arith
get_or-set (x ∷ xs) (suc i) zero v d = ground arith
get_or-set (x ∷ xs) (suc i) (suc j) v d = ground (arith, get_or-set xs i j v d)

-- A write changes its own byte and no other.
pub byte-assign :
    (c : Bool) (i j v : ℕ) (out : Bytes)
    → byte (assign c i v out) j ≡ (if (i == j && ltb i (length out)) && c then v else byte out j)
unfolding assign
byte-assign true i j v out = ground (arith, get_or-set out i j v 0)
byte-assign false i j v out = ground arith

-- A dataclass that is equal to its baseline is not written.
pub bool_ne_self : (a : Bool) → bool_ne a a ≡ false
bool_ne_self true = refl
bool_ne_self false = refl

pub int_ne_self : (a : ℤ) → int_ne a a ≡ false
int_ne_self a = ground arith

All-set :
    (i v : ℕ) (out : Bytes) → v < 256 → All (λ b. b < 256) out → All (λ b. b < 256) (set out i v)
All-set i v [] hv h = h
All-set zero v (b ∷ bs) hv (hb, hs) = (hv, hs)
All-set (suc i) v (b ∷ bs) hv (hb, hs) = (hb, All-set i v bs hv hs)

-- A list of bytes stays one when a byte is written.
pub All-assign :
    (c : Bool) (i v : ℕ) (out : Bytes)
    → v < 256
    → All (λ b. b < 256) out
    → All (λ b. b < 256) (assign c i v out)
unfolding assign
All-assign true i v out hv h = All-set i v out hv h
All-assign false i v out hv h = h

abbrev pub AllBytes : Bytes → Type 0
AllBytes bs = All (λ b. b < 256) bs

pub int_of_bool_lt : (b : Bool) → int_of_bool b < 256
int_of_bool_lt b = ground arith

pub clamp_byte_lt : (v : ℤ) (lo hi : ℕ) → lo < 256 → hi < 256 → clamp_byte v (pos lo) (pos hi) < 256
unfolding clamp
clamp_byte_lt v lo hi g h = ground arith

pub byte_of_lt : (z : ℤ) → byte_of z < 256
byte_of_lt z = ground arith

pub byte_lt : (out : Bytes) (i : ℕ) → AllBytes out → byte out i < 256
byte_lt out i h = All-get_or (λ b. b < 256) (omega arith) out i h

pub nonzero_int_of_bool : (b : Bool) → is_nonzero (pos (int_of_bool b)) ≡ b
nonzero_int_of_bool true = refl
nonzero_int_of_bool false = refl

pub pos-clamp_byte :
    (v : ℤ) (lo hi : ℕ) → pos (clamp_byte v (pos lo) (pos hi)) ≡ clamp v (pos lo) (pos hi)
unfolding clamp
pos-clamp_byte v lo hi = ground arith
