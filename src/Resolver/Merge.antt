-- ===== src/Resolver/Merge.antt =====
-- Which map wins for each key, and that the timestamps do not change the outcome.
-- Filling keeps what the cloud has and adds the cached rest.
use pypopur.Prelude.{
  [], ◌≢◌, arith, ap, Bool, some, Option, ◌≡◌, true, false, none, List, refl, ◌∙◌, String, ◌∷◌,
  if◌then◌else◌,
}
use pypopur.Prelude.Dict.{or_other, put, get-update, IsDict, put-get, get-put, get, update}
use pypopur.Prelude.Eq.{string_Eq}
use pypopur.Prelude.Int.{ℤ}
use pypopur.Dp101.{Dps}
use pypopur.DpStates.{apply_to_map}
use pypopur.Py.{null, Value}
use pypopur.Resolver.{
  critical_dp_keys, merge_fill_missing, merge_with_timestamps, fill_missing, copy_keys,
  trust_cloud_101, copy_one, has_key,
}

get-fill_missing :
    (k : String) (cloud cached : Dps)
    → get k (fill_missing cloud cached) ≡ or_other (get k cloud) (get k cached)
unfolding fill_missing has_key get
get-fill_missing k cloud [] = ground arith
get-fill_missing k cloud ((j, v) ∷ cached) = ground (
  arith,
  get-fill_missing k cloud cached,
  get-fill_missing k (put j v cloud) cached,
  get-put j k v cloud,
  string_Eq.beq_iff j k,
)

copy_one_lem :
    (o : Option Value) (k : String) (merged : Dps)
    → ((v : Value) → o ≡ some v → get k merged ≡ some v)
    → copy_one o k merged ≡ merged
unfolding copy_one
copy_one_lem none k m h = refl
copy_one_lem (some null) k m h = refl
copy_one_lem (some v) k m h = put-get k v m (h v refl)

-- What the cloud has is in the merged map already, so copying it once more changes nothing.
copy_keys_lem :
    (keys : List String) (cloud merged : Dps)
    → ((k : String) (v : Value) → get k cloud ≡ some v → get k merged ≡ some v)
    → copy_keys keys cloud merged ≡ merged
unfolding copy_keys
copy_keys_lem [] cloud merged h = refl
copy_keys_lem (k ∷ keys) cloud merged h =
    rw (copy_one_lem (get k cloud) k merged (h k)) (copy_keys_lem keys cloud merged h)

if_both {ℓ} : {A : Type ℓ} {x y : A} (b : Bool) → x ≡ y → (if b then x else y) ≡ y
if_both true e = e
if_both false e = refl

-- Each key of the two maps together, the cloud's value first.
abbrev pub Overlays : Dps → Dps → Dps → Type 0
Overlays merged cloud cached = (k : String) → get k merged ≡ or_other (get k cloud) (get k cached)

-- `merge_fill_missing` of two maps, the cloud's not empty, is `apply_to_map` of the overlay.
pub merge_fill_missing_lem :
    (cloud cached : Dps)
    → cloud ≢ []
    → (merged : Dps) × Overlays merged cloud cached
      × (merge_fill_missing cloud cached ≡ apply_to_map merged)
unfolding merge_fill_missing
merge_fill_missing_lem [] cached h = absurd (h refl)
merge_fill_missing_lem (x ∷ cloud) cached h =
    (fill_missing (x ∷ cloud) cached, λ k. get-fill_missing k (x ∷ cloud) cached, refl)

-- The timestamps, the countdowns and the completed statuses do not matter: for two maps that are
-- not empty `merge_with_timestamps` is `apply_to_map` of the overlay, always of the same one.
pub merge_with_timestamps_lem :
    (cloud cached : Dps)
    → cloud ≢ []
    → cached ≢ []
    → IsDict cloud
    → (merged : Dps) × Overlays merged cloud cached
      × ((t u : Option ℤ) → merge_with_timestamps cloud cached t u ≡ apply_to_map merged)
unfolding merge_with_timestamps
merge_with_timestamps_lem [] cached h g d = absurd (h refl)
merge_with_timestamps_lem (x ∷ cloud) [] h g d = absurd (g refl)
merge_with_timestamps_lem (x ∷ cloud) (y ∷ cached) h g d =
    let merged = update (y ∷ cached) (x ∷ cloud) in
    let overlays : Overlays merged (x ∷ cloud) (y ∷ cached) =
      λ k. get-update k (y ∷ cached) (x ∷ cloud) d in
    let there : (k : String) (v : Value) → get k (x ∷ cloud) ≡ some v → get k merged ≡ some v =
      λ k v e. overlays k ∙ rw e refl in
    (
      merged,
      overlays,
      λ t u.
          rw
            (if_both (trust_cloud_101 (x ∷ cloud) (y ∷ cached) t u)
              (copy_keys_lem ("101" ∷ "1" ∷ "126" ∷ []) (x ∷ cloud) merged there))
            (ap apply_to_map (copy_keys_lem critical_dp_keys (x ∷ cloud) merged there)),
    )
