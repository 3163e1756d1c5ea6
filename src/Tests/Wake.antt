-- ===== src/Tests/Wake.antt =====
-- The wake manager, on a concrete device.
use pypopur.Prelude.{
  Option, ◌≡◌, [], none, ◌++◌, ℕ, false, List, ◌∷◌, map, arith, refl, some, true, length,
}
use pypopur.Prelude.Dict.{put, get}
use pypopur.Prelude.Eq.{text_Eq}
use pypopur.Prelude.Int.{pos}
use pypopur.Py.{Chars}
use pypopur.Py.Text.{codes}
use pypopur.Sdk.Crypto.{CryptoLib}
use pypopur.Sdk.WakeManager.{
  register_callback, new_task, wake_low_power, start_wake_task, is_member, int_to_byte_array,
  send_awake, run_task, check_later, DeviceRespBean, has_text, wake, arm_task, wait,
  LowPowerDeviceManager, awake,
}
use pypopur.Sdk.WakeManager.Distinct.{Distinct, awakes, Reach, initially, next, Reach-Registry}
use pypopur.Sdk.WakeManager.Waiting.{arm_task-Ended, answers, timed_out, drive}

abbrev lib : CryptoLib
lib = record {
  utf8 = λ t. t;
  utf8_decode = λ bs. bs;
  utf8_strict = λ bs. some bs;
  md5_hexdigest = λ bs. bs;
  zlib_crc32 = λ bs. length bs;
  pkcs7_pad = λ bs. bs;
  pkcs7_unpad = λ bs. some bs;
  ecb_encrypt = λ key bs. some bs;
  ecb_decrypt = λ key bs. some bs;
  gcm_encrypt = λ key nonce bs aad. some bs;
  gcm_decrypt = λ key nonce bs aad. some bs;
}

abbrev device : DeviceRespBean
device = record {
  dev_id = codes "d";
  local_key = some (codes "key");
  communication_node = none;
  product_ref_bean = some (some (codes "low_power_wakeup" ∷ []));
  virtual = false;
  cloud_online = true;
  cloud_connect_last_update_time = pos 0;
}

abbrev waiting_manager : LowPowerDeviceManager
waiting_manager = record {
  wake_timeout_ms = 2500;
  awake_flags = [];
  awake_change_times = [];
  wake_deadlines = [];
  wake_tasks = [];
  callbacks = (codes "d", 4 ∷ 7 ∷ []) ∷ [];
  timers = [];
  task_count = 0;
  events = [];
}

two_wait : get (codes "d") waiting_manager.callbacks ≡ some (4 ∷ 7 ∷ [])
unfolding get
two_wait = refl

no_deadline : get (codes "d") waiting_manager.wake_deadlines ≡ none
unfolding get
no_deadline = refl

arm_task-Ended_example :
    let task = new_task lib true device 100 waiting_manager in
    let final =
      drive lib true
        (1100 ∷ 2100 ∷ 3100 ∷ [])
        task
        (arm_task lib true device 100 100 waiting_manager) in
    (answers final.events ≡ answers waiting_manager.events ++ map timed_out (4 ∷ 7 ∷ []))
    × (get (codes "d") final.callbacks ≡ some [])
arm_task-Ended_example =
    arm_task-Ended lib true device 100 100 (1100 ∷ 2100 ∷ []) 3100 [] (4 ∷ 7 ∷ []) waiting_manager
      two_wait no_deadline (omega arith) (omega arith, (omega arith, tt)) (omega arith)

abbrev fresh_manager : LowPowerDeviceManager
fresh_manager = record waiting_manager { callbacks = [] }

nobody_waits :
    (dev_id : Chars) (cbs : List ℕ) → get dev_id fresh_manager.callbacks ≡ some cbs → Distinct cbs
unfolding get
nobody_waits dev_id cbs e = cc

abbrev beans : Chars → Option DeviceRespBean
beans dev_id = some device

abbrev woken : LowPowerDeviceManager → LowPowerDeviceManager
woken m = awake lib true beans (codes "d") (pos 2500) (some 4) check_later 100 100 m

two_calls : Reach lib true beans fresh_manager (woken (woken fresh_manager))
two_calls =
    next (next initially (awakes fresh_manager (codes "d") (pos 2500) (some 4) check_later 100 100))
      (awakes (woken fresh_manager) (codes "d") (pos 2500) (some 4) check_later 100 100)

one_waits : get (codes "d") (woken (woken fresh_manager)).callbacks ≡ some (4 ∷ [])
unfolding awake wake wake_low_power wait register_callback start_wake_task arm_task run_task
    send_awake get put is_member has_text int_to_byte_array
one_waits = refl

Reach-Registry_example : Distinct (4 ∷ [])
Reach-Registry_example =
    Reach-Registry lib true beans nobody_waits two_calls (codes "d") (4 ∷ []) one_waits
