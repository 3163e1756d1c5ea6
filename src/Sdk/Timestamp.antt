-- ===== src/Sdk/Timestamp.antt =====
-- sdk/timestamp.py: the server's time, carried on by the monotonic clock.
pub mod Clock
use pypopur.Prelude.{◌&&◌, none, ◌/◌, Option, some, if◌then◌else◌}
use pypopur.Prelude.Int.{◌-ℤ◌, ltb_ℤ, ℤ, pos, negsuc, ◌+ℤ◌, eq_ℤ, ◌*ℤ◌}
use pypopur.Dp101.{or_keep}

-- What `restore` reads and `update_timestamp` writes: `base_time_elapsed`, `base_server_timestamp`.
pub record Preferences : Type 0 where
  pub base_time_elapsed : Option ℤ
  pub base_server_timestamp : Option ℤ

pub record TimeStampManager : Type 0 where
  pub time_flag : ℤ
  pub base_elapsed : ℤ
  pub base_server : ℤ
  pub store : Option Preferences

-- `x // 1000`, rounded down.
abbrev pub div_1000 : ℤ → ℤ
div_1000 (pos n) = pos (n / 1000)
div_1000 (negsuc n) = negsuc (n / 1000)

-- The manager at its start, with the two clocks' readings.
unfoldable pub create : ℤ → ℤ → Option Preferences → TimeStampManager
create monotonic wall store = record {
  time_flag = negsuc 0;
  base_elapsed = monotonic;
  base_server = div_1000 wall;
  store = store;
}

abbrev saved : Option ℤ → ℤ
saved o = or_keep o (negsuc 0)

unfoldable pub restore : TimeStampManager → TimeStampManager
restore m = elim m.store [
  | none ↦ m
  | some prefs ↦
      if ltb_ℤ (pos 0) (saved prefs.base_time_elapsed)
        && ltb_ℤ (pos 0) (saved prefs.base_server_timestamp)
      then record m {
        base_elapsed = saved prefs.base_time_elapsed;
        base_server = saved prefs.base_server_timestamp;
        time_flag = pos 1;
      }
      else m
]

-- `monotonic` is the reading of the clock; a value that is not positive is ignored.
unfoldable pub update_timestamp : TimeStampManager → ℤ → ℤ → TimeStampManager
update_timestamp m server_timestamp monotonic =
    if ltb_ℤ (pos 0) server_timestamp
    then record {
      base_elapsed = monotonic;
      base_server = server_timestamp;
      time_flag = pos 1;
      store = elim m.store [
        | none ↦ none
        | some prefs ↦ some (record {
          base_time_elapsed = some monotonic;
          base_server_timestamp = some server_timestamp;
        })
      ];
    }
    else m

abbrev pub restored : TimeStampManager → TimeStampManager
restored m = if eq_ℤ m.time_flag (negsuc 0) then restore m else m

-- A delta below zero anchors the base anew. The readings: the monotonic clock twice, then the wall.
unfoldable pub get_current_timestamp : TimeStampManager → ℤ → ℤ → ℤ → ℤ × TimeStampManager
get_current_timestamp m monotonic again wall =
    let n = restored m in
    let delta = monotonic -ℤ n.base_elapsed in
    if ltb_ℤ delta (pos 0)
    then (div_1000 wall, record n { base_elapsed = again; base_server = div_1000 wall })
    else (div_1000 delta +ℤ n.base_server, n)

-- The wall clock is read once more for the answer.
unfoldable pub get_current_timestamp_millis :
    TimeStampManager → ℤ → ℤ → ℤ → ℤ → ℤ × TimeStampManager
get_current_timestamp_millis m monotonic again wall answer =
    let n = restored m in
    let delta = monotonic -ℤ n.base_elapsed in
    if ltb_ℤ delta (pos 0)
    then (answer, record n { base_elapsed = again; base_server = div_1000 wall })
    else (n.base_server *ℤ pos 1000 +ℤ delta, n)
