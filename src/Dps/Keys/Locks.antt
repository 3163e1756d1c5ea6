-- ===== src/Dps/Keys/Locks.antt =====
-- `with_key_lock` changes the lock of one key.
use pypopur.Prelude.{
  ℕ, bit_and, refl, true, ◌≡◌, ◌^◌, ◌<◌, bit_or, not, Bool, if◌then◌else◌, lt→ltb, not-true, ◌==◌,
}
use pypopur.Prelude.Bits.{both_sound, both, all_below_sound, all_below}
use pypopur.Prelude.Int.{pos}
use pypopur.Dps.Keys.{with_key_lock, clear}
use pypopur.Dps.Payload.{bool_ne_lem, has_bit, bool_ne}
use pypopur.Models.Settings.{KeySettings}

locks_table :
    all_below 16 (λ mask. both (λ locked. all_below 4 (λ i. all_below 4 (λ j.
      let old = mask in
      let new = bit_and (if locked then bit_or old (2 ^ i) else clear old (2 ^ i)) 0x0f in
      not (bool_ne (has_bit new (2 ^ j)) (if i == j then locked else has_bit old (2 ^ j)))))))
    ≡ true
unfolding all_below both has_bit
locks_table = refl

-- Key `j` of the new mask is locked as asked if it is the key that is set, and as before if not;
-- the gestures are kept.
pub with_key_lock_lem :
    (s : KeySettings) (i j : ℕ) (locked : Bool)
    → s.lock_mask < 16
    → i < 4
    → j < 4
    → let t = with_key_lock s (pos i) locked in
      (has_bit t.lock_mask (2 ^ j) ≡ (if i == j then locked else has_bit s.lock_mask (2 ^ j)))
      × (t.press ≡ s.press)
      × (t.hold_3s ≡ s.hold_3s)
      × (t.hold_7s ≡ s.hold_7s)
unfolding with_key_lock
with_key_lock_lem s i j locked small hi hj =
    let row =
      all_below_sound 4 _ j
        (all_below_sound 4 _ i
          (both_sound _ locked (all_below_sound 16 _ s.lock_mask locks_table small)) hi)
        hj in
    rw (lt→ltb i 4 hi) (bool_ne_lem _ _ (not-true row), refl, refl, refl)
