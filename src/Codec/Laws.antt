-- ===== src/Codec/Laws.antt =====
-- Bounds of `clamp`, and the length of a payload.
use mathlib.Core.List.{append-nil}
use mathlib.Core.Path.{subst}
use pypopur.Prelude.{
  ℕ, some, arith, ap, suc, none, [], ◌∷◌, zero, ◌++◌, refl, Option, ◌≡◌, ◌-◌, replicate, take,
  length-append, get_or, All, length-take, length-replicate, length,
}
use pypopur.Prelude.Int.{ℤ, ◌≤ℤ◌}
use pypopur.Codec.{normalize_bytes, clamp, fit}
use pypopur.Py.{Bytes}

pub length-fit : (size : ℕ) (bs : Bytes) → length (fit size bs) ≡ size
unfolding fit
length-fit size bs = omega (
  arith,
  length-append (take size bs) (replicate (size - length bs) 0),
  length-take size bs,
  length-replicate {A = ℕ} (size - length bs) 0,
)

pub length-normalize_bytes :
    (o : Option Bytes) (size : ℕ) (default : Option Bytes)
    → length (normalize_bytes o size default) ≡ size
unfolding normalize_bytes
length-normalize_bytes (some (b ∷ bs)) size d = length-fit size (b ∷ bs)
length-normalize_bytes none size none = length-fit size (replicate size 0)
length-normalize_bytes none size (some []) = length-fit size (replicate size 0)
length-normalize_bytes none size (some (b ∷ bs)) = length-fit size (b ∷ bs)
length-normalize_bytes (some []) size none = length-fit size (replicate size 0)
length-normalize_bytes (some []) size (some []) = length-fit size (replicate size 0)
length-normalize_bytes (some []) size (some (b ∷ bs)) = length-fit size (b ∷ bs)

-- A clamped value lies in the range.
pub clamp_bounds : (v lo hi : ℤ) → lo ≤ℤ hi → (lo ≤ℤ clamp v lo hi) × (clamp v lo hi ≤ℤ hi)
unfolding clamp
clamp_bounds v lo hi h = ground arith

take_all : (bs : Bytes) → take (length bs) bs ≡ bs
take_all [] = refl
take_all (b ∷ bs) = ap (λ (t : Bytes). b ∷ t) (take_all bs)

-- A payload of the right length is left alone.
pub fit-length : (bs : Bytes) → fit (length bs) bs ≡ bs
unfolding fit
fit-length bs =
    let none_missing : length bs - length bs ≡ 0 = omega arith in
    rw (take_all bs, none_missing, append-nil) refl

pub normalize_bytes_self :
    (bs : Bytes) (size : ℕ) → length bs ≡ suc size → normalize_bytes (some bs) (suc size) none ≡ bs
unfolding normalize_bytes
normalize_bytes_self [] size h = absurd (omega arith)
normalize_bytes_self (b ∷ bs) size h =
    subst (λ (n : ℕ). fit n (b ∷ bs) ≡ b ∷ bs) h (fit-length (b ∷ bs))

sub-zero : (n : ℕ) → n - 0 ≡ n
sub-zero n = omega arith

suc-sub-suc : (n m : ℕ) → suc n - suc m ≡ n - m
suc-sub-suc n m = omega arith

-- What holds of every byte and of 0 holds of the payload's bytes.
module _ {κ} (P : ℕ → Type κ) (zero_P : P 0) where
  All-replicate : (n : ℕ) → All P (replicate n 0)
  All-replicate zero = tt
  All-replicate (suc n) = (zero_P, All-replicate n)

  All-fit : (n : ℕ) (bs : Bytes) → All P bs → All P (take n bs ++ replicate (n - length bs) 0)
  All-fit zero bs h = All-replicate (0 - length bs)
  All-fit (suc n) [] h = rw (sub-zero (suc n)) (All-replicate (suc n))
  All-fit (suc n) (b ∷ bs) (hb, h) = (hb, rw (suc-sub-suc n (length bs)) (All-fit n bs h))

  pub All-normalize_bytes :
      (bs : Bytes) (size : ℕ) → All P bs → All P (normalize_bytes (some bs) size none)
  unfolding normalize_bytes
  All-normalize_bytes [] size h = All-fit size (replicate size 0) (All-replicate size)
  All-normalize_bytes (b ∷ bs) size h = All-fit size (b ∷ bs) h

  pub All-get_or : (bs : Bytes) (i : ℕ) → All P bs → P (get_or bs i 0)
  All-get_or [] i h = zero_P
  All-get_or (b ∷ bs) zero (hb, h) = hb
  All-get_or (b ∷ bs) (suc i) (hb, h) = All-get_or bs i h
