-- ===== src/Sdk/WakeManager.antt =====
-- sdk/low_power.py: waking low-power devices; the callbacks wait for a result or for the timeout.
pub mod Waiting
pub mod Distinct
use pypopur.Prelude.{
  ◌∷◌, suc, Bool, false, [], ◌^◌, true, ◌&&◌, some, Option, none, List, not, ◌%◌, map, ℕ, ◌++◌, ◌/◌,
  ◌+◌, ◌||◌, ◌==◌, if◌then◌else◌, ltb,
}
use pypopur.Prelude.Dict.{put, get, Dict, pop}
use pypopur.Prelude.Eq.{text_eq, text_Eq}
use pypopur.Prelude.Int.{pos_part, ℤ, pos, ltb_ℤ}
use pypopur.Dps.Payload.{flag}
use pypopur.Py.{Bytes, Chars}
use pypopur.Py.Text.{is_empty, codes}
use pypopur.Sdk.Crypto.{CryptoLib}

pub data LowPowerAwakeRsp : Type 0 where
  unsupport success awake_timeout : LowPowerAwakeRsp

-- The errors "1001", "1002" and "1003".
pub data AwakeError : Type 0 where
  no_device_model no_response_bean no_product_ref : AwakeError

pub record LowPowerConnectResult : Type 0 where
  pub last_connect_change_time : ℤ
  pub low_power_connect : Bool

-- What the manager looks at of a `DeviceRespBean`; `config_metas` are the keys of the map, and an
-- absent communication bean is one without a node.
pub record DeviceRespBean : Type 0 where
  pub dev_id : Chars
  pub local_key : Option Chars
  pub communication_node : Option Chars
  pub product_ref_bean : Option (Option (List Chars))
  pub virtual : Bool
  pub cloud_online : Bool
  pub cloud_connect_last_update_time : ℤ

-- The closure of a wake task: its identity, and the variables that it holds.
pub record Task : Type 0 where
  pub id : ℕ
  pub resp : DeviceRespBean
  pub start : ℕ

-- What goes out: an answer to a callback, or a message to the broker.
pub data Event : Type 0 where
  on_success : ℕ → LowPowerAwakeRsp → Event
  on_error : ℕ → AwakeError → Event
  published : Chars → Bytes → Event

-- A callback is known by its identity. `timers` are the tasks that the handler is to run again, and
-- `task_count` gives a new task its identity.
pub record LowPowerDeviceManager : Type 0 where
  pub wake_timeout_ms : ℕ
  pub awake_flags : Dict Chars Bool
  pub awake_change_times : Dict Chars ℤ
  pub wake_deadlines : Dict Chars ℕ
  pub wake_tasks : Dict Chars Task
  pub callbacks : Dict Chars (List ℕ)
  pub timers : List Task
  pub task_count : ℕ
  pub events : List Event

-- How the business call of the check ends: it raises, it calls a listener at once, or later.
pub data Check : Type 0 where
  check_raises check_failure check_later : Check
  check_success : List LowPowerConnectResult → Check

unfoldable pub int_to_byte_array : ℕ → Bytes
int_to_byte_array n = n / 2 ^ 24 % 256 ∷ n / 2 ^ 16 % 256 ∷ n / 2 ^ 8 % 256 ∷ n % 256 ∷ []

unfoldable pub is_member : ℕ → List ℕ → Bool
is_member x [] = false
is_member x (y ∷ ys) = x == y || is_member x ys

-- `handler.remove_callbacks`
unfoldable pub remove_task : Task → List Task → List Task
remove_task task [] = []
remove_task task (t ∷ ts) =
    let rest = remove_task task ts in if t.id == task.id then rest else t ∷ rest

unfoldable pub has_text : Chars → List Chars → Bool
has_text t [] = false
has_text t (u ∷ us) = text_eq t u || has_text t us

abbrev pub enrol : Chars → ℕ → LowPowerDeviceManager → Option (List ℕ) → LowPowerDeviceManager
enrol dev_id callback m none = record m { callbacks = put dev_id (callback ∷ []) m.callbacks }
enrol dev_id callback m (some cbs) =
    if is_member callback cbs
    then m
    else record m { callbacks = put dev_id (cbs ++ callback ∷ []) m.callbacks }

unfoldable pub register_callback : Chars → ℕ → LowPowerDeviceManager → LowPowerDeviceManager
register_callback dev_id callback m = enrol dev_id callback m (get dev_id m.callbacks)

abbrev pub say : Event → LowPowerDeviceManager → LowPowerDeviceManager
say e m = record m { events = m.events ++ e ∷ [] }

abbrev pub tell :
    Chars → LowPowerAwakeRsp → LowPowerDeviceManager → Option (List ℕ) → LowPowerDeviceManager
tell dev_id rsp m none = m
tell dev_id rsp m (some cbs) = record m {
  callbacks = put dev_id [] m.callbacks;
  events = m.events ++ map (λ cb. on_success cb rsp) cbs;
}

-- `_fan_out` tells each callback and empties the list.
unfoldable pub fan_out : Chars → LowPowerAwakeRsp → LowPowerDeviceManager → LowPowerDeviceManager
fan_out dev_id rsp m = tell dev_id rsp m (get dev_id m.callbacks)

abbrev pub cancelled : Option Task → List Task → List Task
cancelled none timers = timers
cancelled (some task) timers = remove_task task timers

-- The task and the deadline of a device are without_task.
abbrev pub without_task : Chars → LowPowerDeviceManager → LowPowerDeviceManager
without_task dev_id m = record m {
  timers = cancelled (get dev_id m.wake_tasks) m.timers;
  wake_tasks = pop dev_id m.wake_tasks;
  wake_deadlines = pop dev_id m.wake_deadlines;
}

unfoldable pub dispatch_result :
    Chars → LowPowerAwakeRsp → LowPowerDeviceManager → LowPowerDeviceManager
unfolding fan_out remove_task
dispatch_result dev_id rsp m = fan_out dev_id rsp (without_task dev_id m)

-- The listener of the check: a device that is not in low power is awake.
unfoldable pub on_check_success :
    Chars → List LowPowerConnectResult → LowPowerDeviceManager → LowPowerDeviceManager
unfolding dispatch_result
on_check_success dev_id [] m = dispatch_result dev_id unsupport m
on_check_success dev_id (result ∷ results) m =
    if result.low_power_connect
    then m
    else dispatch_result dev_id success (record m {
      awake_flags = put dev_id true m.awake_flags;
      awake_change_times = put dev_id result.last_connect_change_time m.awake_change_times;
    })

-- `release`
unfoldable pub release : Bool → LowPowerDeviceManager → LowPowerDeviceManager
release destroy m = record m {
  wake_tasks = [];
  callbacks = if destroy then [] else m.callbacks;
  awake_flags = [];
  awake_change_times = [];
  wake_deadlines = [];
}

abbrev or_zero : Option ℕ → ℕ
or_zero none = 0
or_zero (some n) = n

-- A positive timeout replaces the one that is set.
abbrev pub timed : ℤ → LowPowerDeviceManager → LowPowerDeviceManager
timed timeout_ms m = record m {
  wake_timeout_ms = if ltb_ℤ (pos 0) timeout_ms then pos_part timeout_ms else m.wake_timeout_ms;
}

module _ (lib : CryptoLib) (has_server : Bool) where
  unfoldable pub send_awake : DeviceRespBean → LowPowerDeviceManager → LowPowerDeviceManager
  unfolding int_to_byte_array
  send_awake resp m =
      let key : Bytes = elim resp.local_key [ none ↦ [] | some k ↦ lib.utf8 k ] in
      if has_server
      then say (published (codes "m/w/" ++ resp.dev_id) (int_to_byte_array (lib.zlib_crc32 key))) m
      else m

  -- `_task`, when the clock reads `now`: it publishes and is armed again, or the time is over.
  unfoldable pub run_task : Task → ℕ → LowPowerDeviceManager → LowPowerDeviceManager
  unfolding send_awake dispatch_result remove_task
  run_task task now m =
      let deadline = or_zero (get task.resp.dev_id m.wake_deadlines) in
      let sent = send_awake task.resp (record m { timers = remove_task task m.timers }) in
      if ltb now (task.start + deadline)
      then record sent { timers = sent.timers ++ task ∷ [] }
      else dispatch_result task.resp.dev_id awake_timeout m

  -- The timer of a task runs out, and the task runs.
  unfoldable pub fire : Task → ℕ → LowPowerDeviceManager → LowPowerDeviceManager
  unfolding run_task remove_task
  fire task now m = run_task task now (record m { timers = remove_task task m.timers })

  abbrev pub new_task : DeviceRespBean → ℕ → LowPowerDeviceManager → Task
  new_task resp start m = record { id = m.task_count; resp = resp; start = start }

  -- A deadline that is there is kept.
  abbrev pub put_missing : Option ℕ → Chars → ℕ → Dict Chars ℕ → Dict Chars ℕ
  put_missing none dev_id deadline d = put dev_id deadline d
  put_missing (some found) dev_id deadline d = d

  abbrev pub with_deadline : DeviceRespBean → LowPowerDeviceManager → LowPowerDeviceManager
  with_deadline resp m = record m {
    wake_deadlines =
        put_missing (get resp.dev_id m.wake_deadlines) resp.dev_id m.wake_timeout_ms
          m.wake_deadlines;
    task_count = suc m.task_count;
  }

  -- The rest of `_start_wake_task` once the check has been called; `now` is the clock in the task's
  -- first run.
  unfoldable pub arm_task :
      DeviceRespBean → (start now : ℕ) → LowPowerDeviceManager → LowPowerDeviceManager
  unfolding run_task
  arm_task resp start now m =
      let task = new_task resp start m in
      let ran = run_task task now (with_deadline resp m) in
      record ran { wake_tasks = put resp.dev_id task ran.wake_tasks }

  unfoldable pub start_wake_task :
      DeviceRespBean → Check → (start now : ℕ) → LowPowerDeviceManager → LowPowerDeviceManager
  unfolding dispatch_result arm_task on_check_success
  start_wake_task resp check_raises start now m = dispatch_result resp.dev_id unsupport m
  start_wake_task resp check_failure start now m = arm_task resp start now m
  start_wake_task resp check_later start now m = arm_task resp start now m
  start_wake_task resp (check_success results) start now m =
      arm_task resp start now (on_check_success resp.dev_id results m)

  -- The fast path: the flag is set, the cloud saw the device after the recorded change.
  abbrev already_awake : Option Bool → Option ℤ → DeviceRespBean → Bool
  already_awake (some flag) (some stamp) resp =
      flag && resp.cloud_online && not (ltb_ℤ resp.cloud_connect_last_update_time stamp)
  already_awake _ _ resp = false

  abbrev wakeable : Option (List Chars) → Bool
  wakeable none = false
  wakeable (some metas) = has_text (codes "low_power_wakeup") metas

  -- A callback that is not answered at once: it waits, and a task is started if there is none.
  unfoldable pub wait :
      Chars
      → DeviceRespBean
      → ℕ
      → Check
      → (start now : ℕ) → LowPowerDeviceManager
      → LowPowerDeviceManager
  unfolding register_callback start_wake_task
  wait dev_id resp callback check start now m =
      let waiting = register_callback dev_id callback m in
      let started = start_wake_task resp check start now waiting in
      elim (get dev_id m.wake_tasks) [ none ↦ started | some task ↦ waiting ]

  -- A device that low power wakes: at once on the fast path.
  unfoldable pub wake_low_power :
      Chars
      → DeviceRespBean
      → (timeout_ms : ℤ) → ℕ
      → Check
      → (start now : ℕ) → LowPowerDeviceManager
      → LowPowerDeviceManager
  unfolding send_awake wait
  wake_low_power dev_id resp timeout_ms callback check start now m =
      if already_awake (get dev_id m.awake_flags) (get dev_id m.awake_change_times) resp
      then say (on_success callback success) (send_awake resp (timed timeout_ms m))
      else wait dev_id resp callback check start now (timed timeout_ms m)

  -- `awake` of the device that is to be woken, whose product reference comes first.
  unfoldable pub wake :
      Option (Option (List Chars))
      → Chars
      → DeviceRespBean
      → (timeout_ms : ℤ) → ℕ
      → Check
      → (start now : ℕ) → LowPowerDeviceManager
      → LowPowerDeviceManager
  unfolding wake_low_power has_text
  wake none dev_id resp timeout_ms callback check start now m =
      say (on_error callback no_product_ref) m
  wake (some metas) dev_id resp timeout_ms callback check start now m =
      if resp.virtual
      then say (on_success callback success) m
      else if wakeable metas
      then wake_low_power dev_id resp timeout_ms callback check start now m
      else say (on_success callback unsupport) m

  module _ (get_dev_resp_bean : Chars → Option DeviceRespBean) where
    -- `_awake_by_id`
    unfoldable pub awake_by_id : Chars → LowPowerDeviceManager → LowPowerDeviceManager
    unfolding send_awake
    awake_by_id dev_id m =
        if is_empty dev_id
        then m
        else elim (get_dev_resp_bean dev_id) [ none ↦ m | some resp ↦ send_awake resp m ]

    -- A node other than the device takes its place.
    abbrev redirect : Chars → Option Chars → Option Chars
    redirect dev_id none = none
    redirect dev_id (some node) = if is_empty node || text_eq node dev_id then none else some node

    -- `awake`; `check` is how the check ends, if it is called, `start` the clock after it and
    -- `now` the clock in the task's first run.
    unfoldable pub awake :
        Chars
        → (timeout_ms : ℤ) → Option ℕ
        → Check
        → (start now : ℕ) → LowPowerDeviceManager
        → LowPowerDeviceManager
    unfolding awake_by_id wake
    awake dev_id timeout_ms none check start now m = awake_by_id dev_id m
    awake dev_id timeout_ms (some callback) check start now m =
        if is_empty dev_id
        then say (on_error callback no_device_model) m
        else elim (get_dev_resp_bean dev_id) [
          | none ↦ say (on_error callback no_response_bean) m
          | some resp ↦ elim (redirect dev_id resp.communication_node) [
            | none ↦ wake resp.product_ref_bean dev_id resp timeout_ms callback check start now m
            | some node ↦ elim (get_dev_resp_bean node) [
              | none ↦ say (on_success callback unsupport) m
              | some parent ↦
                  wake parent.product_ref_bean node parent timeout_ms callback check start now m
            ]
          ]
        ]
