-- ===== src/Sdk/Dedup.antt =====
-- sdk/dedup.py: a message is accepted once; its repeat inside the window is swallowed.
pub mod Stores
pub mod Refinement
pub mod LowPower
use pypopur.Prelude.{
  none, some, ◌∷◌, true, ◌++◌, ◌-◌, Option, ℕ, [], Bool, false, ◌+◌, bit_and, length, if◌then◌else◌,
  ltb, leb,
}
use pypopur.Prelude.Dict.{put, pop, get, Dict}
use pypopur.Prelude.Eq.{text_Eq}
use pypopur.Prelude.Int.{pos, eq_ℤ, negsuc, ℤ}
use pypopur.Py.{Chars}
use pypopur.Py.Text.{text_of_int}

abbrev pub window_ms : ℕ
window_ms = 5000

abbrev s_threshold : ℕ
s_threshold = 300

abbrev so_threshold : ℕ
so_threshold = 900

abbrev low_power_attribute : ℕ
low_power_attribute = 0x1000

-- `abs(now - ts) < WINDOW_MS`
abbrev pub in_window : ℕ → ℕ → Bool
in_window now ts = ltb ((now - ts) + (ts - now)) window_ms

abbrev pub Store : Type 0
Store = Dict Chars ℕ

-- `seen is not None and abs(now - seen) < WINDOW_MS`
abbrev pub fresh : Option ℕ → ℕ → Bool
fresh none now = false
fresh (some seen) now = in_window now seen

-- Every entry outside the window is deleted.
unfoldable pub evict_stale : ℕ → Store → Store
evict_stale now [] = []
evict_stale now ((key, ts) ∷ store) =
    let rest = evict_stale now store in if in_window now ts then (key, ts) ∷ rest else rest

-- `_lookup`: the answer, and the store after it.
unfoldable pub lookup : Store → Chars → ℕ → ℕ → Bool × Store
lookup store key threshold now = if fresh (get key store) now then (true, pop key store) else (
  false,
  put key now (if ltb threshold (length store) then evict_stale now store else store),
)

pub record MessageCache : Type 0 where
  pub s_store : Store
  pub so_store : Store

-- `_not_low_power`; the provider gives the device's attribute, if the device is known.
unfoldable pub not_low_power : Option (Chars → Option ℕ) → Chars → Bool
not_low_power none dev_id = true
not_low_power (some provider) dev_id = elim (provider dev_id) [
  | none ↦ true
  | some attribute ↦ leb (bit_and attribute low_power_attribute) 0
]

-- `s == -1` passes at once.
unfoldable pub check_s : MessageCache → Chars → ℤ → ℕ → Bool × MessageCache
check_s cache dev_id s now =
    let (hit, store) = lookup cache.s_store (dev_id ++ text_of_int s) s_threshold now in
    if eq_ℤ s (negsuc 0) then (true, cache) else (hit, record cache { s_store = store })

-- `o == 0` is never a repeat.
unfoldable pub check_so : MessageCache → Chars → ℤ → ℤ → ℕ → Bool × MessageCache
check_so cache dev_id s o now =
    let (hit, store) =
      lookup cache.so_store (dev_id ++ text_of_int s ++ text_of_int o) so_threshold now in
    if eq_ℤ o (pos 0) then (false, cache) else (hit, record cache { so_store = store })

module _ (attribute_provider : Option (Chars → Option ℕ)) where
  -- `now` is what the clock gives.
  unfoldable pub is_data_updated : MessageCache → Chars → ℤ → ℕ → Bool × MessageCache
  is_data_updated cache dev_id s now =
      let (hit, after) = check_s cache dev_id s now in
      (if hit then not_low_power attribute_provider dev_id else false, after)

  unfoldable pub is_data_updated_so : MessageCache → Chars → ℤ → ℤ → ℕ → Bool × MessageCache
  is_data_updated_so cache dev_id s o now =
      let (hit, after) = check_so cache dev_id s o now in
      (if hit then not_low_power attribute_provider dev_id else false, after)
