-- ===== src/Prelude/Bits.antt =====
-- Masks on one byte as arithmetic; each fact is a table over the bytes, checked by evaluation.
use Prim.Native.Nat.{ℕ, zero, suc, ◌+◌, ◌≤◌, ◌<◌}
use mathlib.Core.Path.{◌≡◌, subst}
use mathlib.Core.Logic.{inl, inr}
use mathlib.Core.Bool.{Bool, true, false, ◌&&◌}
use native.Mathlib.Omega.{arith}
use pypopur.Prelude.Tests.{◌==◌, ==_iff, Bool-cases, and_split}

-- The test holds of `count` numbers from `start` on.
unfoldable pub sweep : (count start : ℕ) → (ℕ → Bool) → Bool
sweep zero start test = true
sweep (suc count) start test = test start && sweep count (suc start) test

sweep_covers :
    (count start : ℕ) (test : ℕ → Bool) (x : ℕ)
    → sweep count start test ≡ true
    → start ≤ x
    → x < start + count
    → test x ≡ true
unfolding sweep
sweep_covers zero start test x h low high = absurd (omega arith)
sweep_covers (suc count) start test x h low high =
    let (here, rest) = and_split (test start) (sweep count (suc start) test) h in
    elim (Bool-cases (start == x)) [
      | inl e ↦ subst (λ (n : ℕ). test n ≡ true) ((==_iff start x).0 e) here
      | inr e ↦ sweep_covers count (suc start) test x rest (ground arith) (omega arith)
    ]

unfoldable pub all_below : ℕ → (ℕ → Bool) → Bool
unfolding sweep
all_below bound test = sweep bound 0 test

-- What holds of every number below a bound by evaluation holds of a variable below it.
pub all_below_sound :
    (bound : ℕ) (test : ℕ → Bool) (x : ℕ) → all_below bound test ≡ true → x < bound → test x ≡ true
unfolding all_below
all_below_sound bound test x table small =
    sweep_covers bound 0 test x table (omega arith) (omega arith)

unfoldable pub both : (Bool → Bool) → Bool
both p = p true && p false

pub both_sound : (p : Bool → Bool) (b : Bool) → both p ≡ true → p b ≡ true
unfolding both
both_sound p true h = ground arith
both_sound p false h = ground arith
