-- ===== src/Dps/Snapshot/Total.antt =====
-- `decode_snapshot` returns on every map without a float that is no number.
use pypopur.Prelude.{
  inr, Option, arith, ◌≡◌, true, refl, none, some, [], ◌∷◌, ℕ, false, inl, length, take,
  length-take, All, leb, ltb, Option-cases, Bool-cases,
}
use pypopur.Prelude.Dict.{or_other, put, get}
use pypopur.Prelude.Eq.{text_eq}
use pypopur.Prelude.Int.{pos}
use pypopur.Codec.{parse_bool, parse_bool_text, decode_raw_bytes, normalize_bytes}
use pypopur.Codec.Laws.{length-normalize_bytes}
use pypopur.Dps.Dustbin.{normalize_dp104, decode_dustbin, decode_dp104}
use pypopur.Dps.Dustbin.RoundTrip.{length-normalize_dp104}
use pypopur.Dps.Keys.{decode_dp105, decode_keys}
use pypopur.Dps.Notifications.{
  normalize_dp_mapping, eq_key, decode_notification_settings, numeric_key, RawDps, normalize_onto,
  dp_text, dp, DpKey, dp_value, DpKey_Eq,
}
use pypopur.Dps.Payload.{int_of_bool, indexed_lem}
use pypopur.Dps.Report.{decode_run_mode, run_mode_default, machine_status_of, decode_dp101}
use pypopur.Dps.Scalars.{decode_dp106, decode_dp125_value, decode_dp125, progress_of}
use pypopur.Dps.Schedule.{decode_dp103, decode_time_power}
use pypopur.Dps.Snapshot.{DeviceSnapshot, decode_snapshot, raw_value}
use pypopur.Dps.System.{decode_dp102, decode_settings}
use pypopur.Py.{
  null, neg_inf, int, mapping, str, ok, is_nonzero, iterable, finite, nan, or_null, bool, Float,
  Exception, int_of_float, Chars, bytes, float, Bytes, object, inf, Result, Value,
}
use pypopur.Py.Text.{int_of_text, text_of_int, lower, codes, strip}

-- No part of the value is `nan` or infinite.
abbrev pub IsFinite : Value → Type 0
IsFinite (float (finite z integral)) = Unit
IsFinite (float _) = ⊥
IsFinite _ = Unit

abbrev pub AreFinite : RawDps → Type 0
AreFinite dps = All (λ (entry : DpKey × Value). IsFinite entry.1) dps

AreFinite-put :
    (k : DpKey) (v : Value) (dps : RawDps) → IsFinite v → AreFinite dps → AreFinite (put k v dps)
unfolding put
AreFinite-put k v [] hv h = (hv, tt)
AreFinite-put k v ((j, w) ∷ dps) hv (hw, h) = elim (Bool-cases (eq_key j k)) [
  | inl e ↦ rw e (hv, h)
  | inr e ↦ rw e (hw, AreFinite-put k v dps hv h)
]

AreFinite-normalize_onto :
    (normalized dps : RawDps)
    → AreFinite normalized
    → AreFinite dps
    → AreFinite (normalize_onto normalized dps)
unfolding normalize_onto
AreFinite-normalize_onto normalized [] h g = h
AreFinite-normalize_onto normalized ((k, v) ∷ dps) h (hv, g) = elim (Option-cases (numeric_key k)) [
  | inl e ↦ rw e (AreFinite-normalize_onto normalized dps h g)
  | inr (z, e) ↦ rw e (
      AreFinite-normalize_onto (put (dp z) v normalized) dps
        (AreFinite-put (dp z) v normalized hv h) g)
]

abbrev OptionIsFinite : Option Value → Type 0
OptionIsFinite none = Unit
OptionIsFinite (some v) = IsFinite v

get-IsFinite : (k : DpKey) (dps : RawDps) → AreFinite dps → OptionIsFinite (get k dps)
unfolding get
get-IsFinite k [] h = tt
get-IsFinite k ((j, v) ∷ dps) (hv, h) = elim (Bool-cases (eq_key j k)) [
  | inl e ↦ rw e hv
  | inr e ↦ rw e (get-IsFinite k dps h)
]

or_null-IsFinite :
    (o p : Option Value) → OptionIsFinite o → OptionIsFinite p → IsFinite (or_null (or_other o p))
or_null-IsFinite none none h g = tt
or_null-IsFinite none (some v) h g = g
or_null-IsFinite (some v) p h g = h

or_null-OptionIsFinite : (o : Option Value) → OptionIsFinite o → IsFinite (or_null o)
or_null-OptionIsFinite none h = tt
or_null-OptionIsFinite (some v) h = h

dp_value-IsFinite : (dps : RawDps) (n : ℕ) → AreFinite dps → IsFinite (dp_value dps n)
unfolding dp_value
dp_value-IsFinite dps n h =
    or_null-IsFinite (get (dp (pos n)) dps) (get (dp_text (text_of_int (pos n))) dps)
      (get-IsFinite (dp (pos n)) dps h) (get-IsFinite (dp_text (text_of_int (pos n))) dps h)

-- A result that is there.
abbrev Returns : {A : Type 0} → Result Exception A → Type 0
Returns {A} r = (a : A) × (r ≡ ok a)

text-Returns : (t : Chars) → Returns (parse_bool_text t)
unfolding parse_bool_text
text-Returns t = elim (Bool-cases (text_eq t (codes "true"))) [
  | inl e ↦ rw e (true, refl)
  | inr e ↦ elim (Bool-cases (text_eq t (codes "false"))) [
    | inl f ↦ rw (e, f) (false, refl)
    | inr f ↦ elim (Option-cases (int_of_text 10 t)) [
      | inl g ↦ rw (e, f, g) (false, refl)
      | inr (z, g) ↦ rw (e, f, g) (is_nonzero z, refl)
    ]
  ]
]

parse_bool-Returns : (v : Value) → IsFinite v → Returns (parse_bool v)
unfolding parse_bool int_of_float
parse_bool-Returns null h = (false, refl)
parse_bool-Returns (bool b) h = (b, refl)
parse_bool-Returns (int z) h = (is_nonzero z, refl)
parse_bool-Returns (float (finite z integral)) h = (is_nonzero z, refl)
parse_bool-Returns (float nan) h = absurd h
parse_bool-Returns (float inf) h = absurd h
parse_bool-Returns (float neg_inf) h = absurd h
parse_bool-Returns (str t) h = text-Returns (lower (strip t))
parse_bool-Returns (bytes bs) h = (false, refl)
parse_bool-Returns (iterable vs) h = (false, refl)
parse_bool-Returns mapping h = (false, refl)
parse_bool-Returns object h = (false, refl)

fault-Returns : (v : Value) → IsFinite v → Returns (decode_dp125_value v)
unfolding decode_dp125_value int_of_float
fault-Returns null h = (pos 0, refl)
fault-Returns (bool b) h = (pos (int_of_bool b), refl)
fault-Returns (int z) h = (z, refl)
fault-Returns (float (finite z integral)) h = (z, refl)
fault-Returns (float nan) h = absurd h
fault-Returns (float inf) h = absurd h
fault-Returns (float neg_inf) h = absurd h
fault-Returns (str t) h = elim (Option-cases (int_of_text 16 (strip t))) [
  | inl e ↦ (pos 0, rw (decode_dp125_value, e) refl)
  | inr (z, e) ↦ (z, rw (decode_dp125_value, e) refl)
]
fault-Returns (bytes bs) h = (pos 0, refl)
fault-Returns (iterable vs) h = (pos 0, refl)
fault-Returns mapping h = (pos 0, refl)
fault-Returns object h = (pos 0, refl)

notifications-Returns : (dps : RawDps) → AreFinite dps → Returns (decode_notification_settings dps)
unfolding decode_notification_settings
notifications-Returns dps h =
    let switch : (n : ℕ) → Returns (parse_bool (dp_value dps n)) =
      λ n. parse_bool-Returns (dp_value dps n) (dp_value-IsFinite dps n h) in
    rw
      (
        (switch 112).1,
        (switch 113).1,
        (switch 114).1,
        (switch 115).1,
        (switch 117).1,
        (switch 118).1,
        (switch 119).1,
        (switch 120).1,
        (switch 121).1,
        (switch 122).1,
        (switch 123).1,
        (switch 124).1,
      )
      (_, refl)

-- No decoder of a packed DP reads past its payload.
run_mode-Returns : (o : Option Bytes) → Returns (decode_run_mode o)
run_mode-Returns none = (none, refl)
run_mode-Returns (some raw) = elim (Bool-cases (ltb (length raw) 5)) [
  | inl short ↦ rw short (none, refl)
  | inr long ↦ rw long (_, refl)
]

dp101-Returns : (v : Value) → Returns (decode_dp101 v)
unfolding decode_dp101
dp101-Returns v = by_status (machine_status_of v)
  where
    by_status :
        (o : Option Chars)
        → Returns (elim o [
          | some status ↦ ok (some (run_mode_default status))
          | none ↦ decode_run_mode (decode_raw_bytes v true)
        ])
    by_status none = run_mode-Returns (decode_raw_bytes v true)
    by_status (some status) = (_, refl)

settings-Returns : (o : Option Bytes) → Returns (decode_settings o)
settings-Returns none = (none, refl)
settings-Returns (some bs) = (
  _,
  indexed_lem 29 (normalize_bytes (some bs) 29 none) _
      (omega (arith, length-normalize_bytes (some bs) 29 none)),
)

schedule-Returns : (o : Option Bytes) → Returns (decode_time_power o)
schedule-Returns none = (none, refl)
schedule-Returns (some bs) = (
  _,
  indexed_lem 10 (normalize_bytes (some bs) 10 none) _
      (omega (arith, length-normalize_bytes (some bs) 10 none)),
)

dustbin-Returns : (o : Option Bytes) → Returns (decode_dustbin o)
dustbin-Returns none = (none, refl)
dustbin-Returns (some bs) = (
  _,
  indexed_lem 3 (normalize_dp104 (some bs)) _ (omega (arith, length-normalize_dp104 (some bs))),
)

keys-Returns : (o : Option Bytes) → Returns (decode_keys o)
keys-Returns none = (none, refl)
keys-Returns (some bs) = elim (Bool-cases (leb 7 (length bs))) [
  | inl long ↦ rw long (_, indexed_lem 7 (take 7 bs) _ (ground (arith, length-take 7 bs)))
  | inr short ↦ rw short (_, refl)
]

self_check-Returns : (v : Value) → Returns (decode_dp106 v)
unfolding decode_dp106
self_check-Returns v = by_bytes (decode_raw_bytes v true)
  where
    by_bytes :
        (o : Option Bytes)
        → Returns (elim o [ none ↦ ok none | some decoded ↦ progress_of decoded ])
    by_bytes none = (none, refl)
    by_bytes (some []) = (none, refl)
    by_bytes (some (b ∷ bs)) = (
      _,
      indexed_lem 1 (normalize_bytes (some (b ∷ bs)) 5 none) _
          (omega (arith, length-normalize_bytes (some (b ∷ bs)) 5 none)),
    )

-- If no value of the map is a float that is `nan` or infinite, `decode_snapshot` returns a snapshot
-- of the normalised map: whatever else the values are, of any type and any length, nothing is
-- raised, and no byte is read past the end of a payload.
pub decode_snapshot_total :
    (float_of_text : Chars → Option Float) (dps : RawDps)
    → AreFinite dps
    → (s : DeviceSnapshot) × (decode_snapshot float_of_text dps ≡ ok s)
      × (s.raw_dps ≡ normalize_dp_mapping dps)
unfolding decode_snapshot decode_dp125 decode_dp125_value normalize_dp_mapping decode_dp102
    decode_dp103 decode_dp104 decode_dp105
decode_snapshot_total float_of_text dps h =
    let raw = normalize_dp_mapping dps in
    let fine = AreFinite-normalize_onto [] dps tt h in
    let fault =
      fault-Returns (raw_value raw 125)
        (or_null-OptionIsFinite _ (get-IsFinite (dp (pos 125)) raw fine)) in
    let switches = notifications-Returns raw fine in
    rw
      (
        fault.1,
        (dp101-Returns (raw_value raw 101)).1,
        (settings-Returns (decode_raw_bytes (raw_value raw 102) true)).1,
        (schedule-Returns (decode_raw_bytes (raw_value raw 103) true)).1,
        (dustbin-Returns (decode_raw_bytes (raw_value raw 104) true)).1,
        (keys-Returns (decode_raw_bytes (raw_value raw 105) true)).1,
        (self_check-Returns (raw_value raw 106)).1,
        switches.1,
      )
      (_, refl, refl)
