-- ===== src/Tests/Channels.antt =====
-- The message cache, the clock and the fallback transport, on concrete runs.
use pypopur.Prelude.{
  String, none, refl, ◌+◌, List, ◌≡◌, some, ◌∷◌, [], false, Bool, ℕ, arith, true, All,
  if◌then◌else◌,
}
use pypopur.Prelude.Dict.{IsDict, get}
use pypopur.Prelude.Eq.{string_Eq, nat_Eq, text_Eq}
use pypopur.Prelude.Int.{pos, ltb_ℤ, ◌-ℤ◌, negsuc}
use pypopur.Py.{raise, ok, Value, bool, Chars}
use pypopur.Py.Text.{codes}
use pypopur.Sdk.Dedup.{is_data_updated, MessageCache, is_data_updated_so}
use pypopur.Sdk.Dedup.LowPower.{is_data_updated_low_power}
use pypopur.Sdk.Dedup.Refinement.{cache_answers, memory_answers, lookup_refines}
use pypopur.Sdk.Timestamp.{
  create, div_1000, restore, update_timestamp, get_current_timestamp_millis, TimeStampManager,
  restored, get_current_timestamp,
}
use pypopur.Sdk.Timestamp.Clock.{create-update_timestamp, seconds_of_millis}
use pypopur.Transport.{missing_ids, write_dps, read_dps, FallbackTransport, DpMap, done, Transport}
use pypopur.Transport.Backoff.{
  write_dps-refused, Operation, writing, run, reading, run_in_window, SamePrimary,
}
use pypopur.Transport.Reads.{Took, read_dps-Present, Present, write_dps-Took}

abbrev trace : List (Chars × ℕ)
trace = (codes "a1", 100) ∷ (codes "a2", 200) ∷ (codes "a1", 4000) ∷ (codes "a1", 4100) ∷ []

lookup_refines_example : cache_answers 0 [] trace ≡ memory_answers (λ k. none) trace
lookup_refines_example =
    lookup_refines 0 0 trace (omega arith, (omega arith, (omega arith, (omega arith, tt))))

abbrev manager : TimeStampManager
manager = record {
  time_flag = negsuc 0;
  base_elapsed = pos 10;
  base_server = pos 20;
  store = some (record { base_time_elapsed = none; base_server_timestamp = none });
}

manager_runs : ltb_ℤ (pos 3500 -ℤ (restored manager).base_elapsed) (pos 0) ≡ false
unfolding restore ◌-ℤ◌
manager_runs = refl

later_reading : ltb_ℤ (pos 2050 -ℤ pos 50) (pos 0) ≡ false
unfolding ◌-ℤ◌
later_reading = refl

seconds_of_millis_example :
    let (seconds, after) = get_current_timestamp manager (pos 3500) (pos 0) (pos 0) in
    let (millis, after_millis) =
      get_current_timestamp_millis manager (pos 3500) (pos 0) (pos 0) (pos 0) in
    (seconds ≡ div_1000 millis) × (after ≡ after_millis)
seconds_of_millis_example =
    seconds_of_millis manager (pos 3500) (pos 0) (pos 0) (pos 0) manager_runs

create-update_timestamp_example :
    let updated = update_timestamp manager (pos 1700) (pos 50) in
    (get_current_timestamp (create (pos 0) (pos 0) updated.store) (pos 2050) (pos 0) (pos 0)).0
    ≡ (get_current_timestamp updated (pos 2050) (pos 0) (pos 0)).0
create-update_timestamp_example =
    create-update_timestamp manager
      (record { base_time_elapsed = none; base_server_timestamp = none }) (pos 1700) (pos 50)
      (pos 0) (pos 0) (pos 2050) (pos 0) (pos 0) refl refl refl later_reading

-- A channel that counts its calls: it has one reply, and takes a write if `alive` says so.
abbrev channel : (ℕ → Bool) → DpMap → Transport String
channel alive reply = record {
  State = ℕ;
  connect = λ n. (ok done, n + 1);
  close = λ n. (ok done, n + 100);
  read_dps = λ ids n. (ok reply, n + 1);
  write_dps = λ values n. (if alive n then ok done else raise "timed out", n + 1);
}

abbrev dead : Transport String
dead = channel (λ n. false) ((1, bool true) ∷ [])

abbrev cloud : Transport String
cloud = channel (λ n. true) ((2, bool false) ∷ [])

abbrev start : FallbackTransport dead cloud 60
start = record {
  primary = 0;
  fallback = 0;
  primary_retry_at = 0;
  active = none;
  last_error = none;
  told = [];
}

abbrev operations : List Operation
operations = reading 5 5 none ∷ writing 40 40 [] ∷ []

write_dps-refused_example :
    let u = run dead cloud 60 operations (write_dps dead cloud 60 2 3 [] start).1 in
    (u.primary ≡ 101)
    × (u.primary_retry_at ≡ 63)
    × (u.last_error ≡ some "timed out")
    × (u.told ≡ "timed out" ∷ [])
write_dps-refused_example =
    write_dps-refused dead cloud 60 start 2 3 [] "timed out" operations refl refl
      (omega arith, (omega arith, tt))

abbrev waiting : FallbackTransport dead cloud 60
waiting = record start { primary_retry_at = 63 }

run_in_window_example : SamePrimary dead cloud 60 waiting (run dead cloud 60 operations waiting)
run_in_window_example =
    run_in_window dead cloud 60 operations waiting (omega arith, (omega arith, tt))

-- The primary has DP 1, the fallback DP 2.
fallback_map-IsDict : IsDict {K = ℕ} {V = Value} ((2, bool false) ∷ [])
unfolding get
fallback_map-IsDict = (refl, tt)

two_missing : missing_ids (1 ∷ 2 ∷ []) ((1, bool true) ∷ []) ≡ 2 ∷ []
unfolding missing_ids get
two_missing = refl

two_there : All {A = ℕ} (λ i. Present (get {K = ℕ} {V = Value} i ((2, bool false) ∷ []))) (2 ∷ [])
unfolding get
two_there = (tt, tt)

one_unsent : get {K = ℕ} {V = Value} 1 ((2, bool false) ∷ []) ≡ none
unfolding get
one_unsent = refl

read_dps-Present_example :
    (m : DpMap) × ((read_dps dead cloud 60 2 3 (some (1 ∷ 2 ∷ [])) start).0 ≡ ok m)
    × All {A = ℕ} (λ i. Present (get i m)) (1 ∷ 2 ∷ [])
    × (get {K = ℕ} 1 m ≡ get {K = ℕ} 1 ((1, bool true) ∷ []))
read_dps-Present_example =
    read_dps-Present dead cloud 60 start 2 3 1 (1 ∷ 2 ∷ []) ((1, bool true) ∷ [])
      ((2, bool false) ∷ []) refl refl refl fallback_map-IsDict (rw two_missing two_there)
      one_unsent

write_dps-Took_example :
    Took dead cloud 60 [] start
      (write_dps dead cloud 60 2 3 [] start).0
      (write_dps dead cloud 60 2 3 [] start).1.active
write_dps-Took_example = write_dps-Took dead cloud 60 start 2 3 []

is_data_updated_low_power_example :
    let cache : MessageCache = record { s_store = (codes "a1", 5) ∷ []; so_store = [] } in
    ((is_data_updated (some (λ d. some 0x1001)) cache (codes "a") (pos 1) 6).0 ≡ false)
    × ((is_data_updated_so (some (λ d. some 0x1001)) cache (codes "a") (pos 1) (pos 2) 6).0 ≡ false)
is_data_updated_low_power_example =
    is_data_updated_low_power (λ d. some 0x1001)
      (record { s_store = (codes "a1", 5) ∷ []; so_store = [] }) (codes "a") (pos 1) (pos 2) 6
      0x1001 refl refl
