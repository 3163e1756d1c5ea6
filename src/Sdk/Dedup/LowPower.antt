-- ===== src/Sdk/Dedup/LowPower.antt =====
-- The messages of a device that sleeps.
use pypopur.Prelude.{
  ◌≡◌, false, true, bit_and, inl, inr, arith, some, refl, ℕ, Option, leb, ltb, Bool-cases,
}
use pypopur.Prelude.Int.{ℤ}
use pypopur.Py.{Chars}
use pypopur.Sdk.Dedup.{
  is_data_updated, check_s, is_data_updated_so, MessageCache, check_so, not_low_power,
}

-- No message of a low-power device is swallowed, be it a repeat or not, in either store.
pub is_data_updated_low_power :
    (provider : Chars → Option ℕ) (cache : MessageCache) (dev_id : Chars) (s o : ℤ)
    (now attribute : ℕ)
    → provider dev_id ≡ some attribute
    → ltb 0 (bit_and attribute 0x1000) ≡ true
    → ((is_data_updated (some provider) cache dev_id s now).0 ≡ false)
      × ((is_data_updated_so (some provider) cache dev_id s o now).0 ≡ false)
unfolding is_data_updated is_data_updated_so not_low_power
is_data_updated_low_power provider cache dev_id s o now attribute known sleeps =
    let awake : leb (bit_and attribute 0x1000) 0 ≡ false = ground arith in
    (
      elim (Bool-cases (check_s cache dev_id s now).0) [
        | inl e ↦ rw (e, known, awake) refl
        | inr e ↦ rw e refl
      ],
      elim (Bool-cases (check_so cache dev_id s o now).0) [
        | inl e ↦ rw (e, known, awake) refl
        | inr e ↦ rw e refl
      ],
    )
