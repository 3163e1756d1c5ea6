-- ===== src/Sdk/WakeManager/Waiting.antt =====
-- sdk/low_power.py: a callback that waits is answered when the wake task's time is over.
use mathlib.Core.List.{append-nil}
use mathlib.Core.Path.{subst}
use pypopur.Prelude.{
  some, Bool, inr, ◌++◌, ◌≡◌, ap, ◌≤◌, arith, Option, ◌||◌, ◌∷◌, sym, List, ℕ, ◌+◌, refl, false,
  none, ◌<◌, ◌∙◌, true, [], inl, map, All, ◌==◌, if◌then◌else◌, Bool-cases, ltb, lt→ltb,
}
use pypopur.Prelude.Dict.{get, get-put, Dict, put}
use pypopur.Prelude.Eq.{text_eq_iff, text_Eq}
use pypopur.Dps.System.Encode.{payload}
use pypopur.Py.{Chars}
use pypopur.Sdk.Crypto.{CryptoLib}
use pypopur.Sdk.WakeManager.{
  or_zero, put_missing, arm_task, dispatch_result, fire, LowPowerDeviceManager, send_awake, Event,
  tell, new_task, Task, on_success, run_task, published, on_error, remove_task, fan_out,
  DeviceRespBean, cancelled, without_task, awake_timeout, with_deadline, LowPowerAwakeRsp,
}

get-put_self {ℓ} : {V : Type ℓ} (k : Chars) (v : V) (d : Dict Chars V) → get k (put k v d) ≡ some v
get-put_self k v d = get-put k k v d ∙ rw ((text_eq_iff k k).1 refl) refl

-- The events that answer a callback.
unfoldable pub answers : List Event → List Event
answers [] = []
answers (published topic payload ∷ events) = answers events
answers (on_success cb rsp ∷ events) = on_success cb rsp ∷ answers events
answers (on_error cb e ∷ events) = on_error cb e ∷ answers events

answers-append : (a b : List Event) → answers (a ++ b) ≡ answers a ++ answers b
unfolding answers
answers-append [] b = refl
answers-append (published topic payload ∷ a) b = answers-append a b
answers-append (on_success cb rsp ∷ a) b = rw (answers-append a b) refl
answers-append (on_error cb e ∷ a) b = rw (answers-append a b) refl

abbrev pub timed_out : ℕ → Event
timed_out cb = on_success cb awake_timeout

answers-map :
    (cbs : List ℕ) (rsp : LowPowerAwakeRsp)
    → answers (map (λ cb. on_success cb rsp) cbs) ≡ map (λ cb. on_success cb rsp) cbs
unfolding answers
answers-map [] rsp = refl
answers-map (cb ∷ cbs) rsp = rw (answers-map cbs rsp) refl

-- The handler is to run the task again.
unfoldable pub is_armed : Task → List Task → Bool
is_armed task [] = false
is_armed task (t ∷ ts) = t.id == task.id || is_armed task ts

is_armed-remove_task :
    (task t : Task) (ts : List Task)
    → is_armed task ts ≡ false
    → is_armed task (remove_task t ts) ≡ false
unfolding is_armed remove_task
is_armed-remove_task task t [] h = refl
is_armed-remove_task task t (u ∷ ts) h = ground (arith, is_armed-remove_task task t ts)

is_armed-remove_self : (task : Task) (ts : List Task) → is_armed task (remove_task task ts) ≡ false
unfolding is_armed remove_task
is_armed-remove_self task [] = refl
is_armed-remove_self task (u ∷ ts) = ground (arith, is_armed-remove_self task ts)

cancelled_lem :
    (task : Task) (o : Option Task) (ts : List Task)
    → is_armed task ts ≡ false
    → is_armed task (cancelled o ts) ≡ false
cancelled_lem task none ts h = h
cancelled_lem task (some t) ts h = is_armed-remove_task task t ts h

is_armed-append : (task : Task) (ts : List Task) → is_armed task (ts ++ task ∷ []) ≡ true
unfolding is_armed
is_armed-append task [] = ground arith
is_armed-append task (u ∷ ts) = ground (arith, is_armed-append task ts)

module _ (lib : CryptoLib) (has_server : Bool) where
  -- The handler runs the task at these readings of the clock, for as long as the task is armed.
  unfoldable pub drive : List ℕ → Task → LowPowerDeviceManager → LowPowerDeviceManager
  unfolding fire is_armed
  drive [] task m = m
  drive (now ∷ times) task m =
      let rest = drive times task (fire lib has_server task now m) in
      if is_armed task m.timers then rest else m

  -- Before its time is over the task answers nobody, and is armed again.
  abbrev Waits : Task → LowPowerDeviceManager → LowPowerDeviceManager → Type 0
  Waits task m after =
      (is_armed task after.timers ≡ true)
      × (answers after.events ≡ answers m.events)
      × (after.callbacks ≡ m.callbacks)
      × (after.wake_deadlines ≡ m.wake_deadlines)

  run_task-Waits :
      (task : Task) (now : ℕ) (m : LowPowerDeviceManager)
      → ltb now (task.start + or_zero (get task.resp.dev_id m.wake_deadlines)) ≡ true
      → Waits task m (run_task lib has_server task now m)
  unfolding run_task send_awake answers
  run_task-Waits task now m early = elim (Bool-cases has_server) [
    | inl e ↦
        rw (early, e)
          (
            is_armed-append task _,
            answers-append m.events _ ∙ append-nil (answers m.events),
            refl,
            refl,
          )
    | inr e ↦ rw (early, e) (is_armed-append task _, refl, refl, refl)
  ]

  fire-Waits :
      (task : Task) (now : ℕ) (m : LowPowerDeviceManager)
      → ltb now (task.start + or_zero (get task.resp.dev_id m.wake_deadlines)) ≡ true
      → Waits task m (fire lib has_server task now m)
  unfolding fire
  fire-Waits task now m early =
      run_task-Waits task now (record m { timers = remove_task task m.timers }) early

  abbrev Ended : Task → List ℕ → LowPowerDeviceManager → LowPowerDeviceManager → Type 0
  Ended task cbs m after =
      (is_armed task after.timers ≡ false)
      × (answers after.events ≡ answers m.events ++ map timed_out cbs)
      × (get task.resp.dev_id after.callbacks ≡ some [])

  off_lem :
      (times : List ℕ) (task : Task) (m : LowPowerDeviceManager)
      → is_armed task m.timers ≡ false
      → drive times task m ≡ m
  unfolding drive
  off_lem [] task m off = refl
  off_lem (now ∷ times) task m off = rw off refl

  -- A result cancels the task, and tells everyone who waits.
  pub dispatch_result_lem :
      (task : Task) (rsp : LowPowerAwakeRsp) (cbs : List ℕ) (m : LowPowerDeviceManager)
      → is_armed task m.timers ≡ false
      → get task.resp.dev_id m.callbacks ≡ some cbs
      → (is_armed task (dispatch_result task.resp.dev_id rsp m).timers ≡ false)
        × (answers (dispatch_result task.resp.dev_id rsp m).events
            ≡ answers m.events ++ map (λ cb. on_success cb rsp) cbs)
        × (get task.resp.dev_id (dispatch_result task.resp.dev_id rsp m).callbacks ≡ some [])
  unfolding dispatch_result fan_out
  dispatch_result_lem task rsp cbs m off waiting =
      let dev_id : Chars = task.resp.dev_id in
      let e : dispatch_result dev_id rsp m ≡ tell dev_id rsp (without_task dev_id m) (some cbs) =
        ap (tell dev_id rsp (without_task dev_id m)) waiting in
      subst
        (λ (after : LowPowerDeviceManager).
          (is_armed task after.timers ≡ false)
          × (answers after.events ≡ answers m.events ++ map (λ cb. on_success cb rsp) cbs)
          × (get dev_id after.callbacks ≡ some []))
        (sym e)
        (
          cancelled_lem task (get dev_id m.wake_tasks) m.timers off,
          answers-append m.events _
              ∙ ap (λ (es : List Event). answers m.events ++ es) (answers-map cbs rsp),
          get-put_self dev_id [] m.callbacks,
        )

  fire_ends :
      (task : Task) (now : ℕ) (cbs : List ℕ) (m : LowPowerDeviceManager)
      → ltb now (task.start + or_zero (get task.resp.dev_id m.wake_deadlines)) ≡ false
      → get task.resp.dev_id m.callbacks ≡ some cbs
      → Ended task cbs m (fire lib has_server task now m)
  unfolding fire run_task
  fire_ends task now cbs m late waiting =
      let disarmed : LowPowerDeviceManager = record m { timers = remove_task task m.timers } in
      let e : fire lib has_server task now m
          ≡ dispatch_result task.resp.dev_id awake_timeout disarmed =
        rw late refl in
      subst (λ (after : LowPowerDeviceManager). Ended task cbs m after) (sym e)
        (dispatch_result_lem task awake_timeout cbs disarmed (is_armed-remove_self task m.timers)
          waiting)

  -- The liveness of a wait. A task is armed for a device with callbacks that wait and a deadline,
  -- and the handler runs it at any times of which one is past the deadline: every callback is told
  -- once that the time is over, nobody else is told anything, no callback waits any more and the
  -- task is off.
  pub drive-Ended :
      (before : List ℕ) (now : ℕ) (after : List ℕ) (task : Task) (deadline : ℕ) (cbs : List ℕ)
      (m : LowPowerDeviceManager)
      → is_armed task m.timers ≡ true
      → get task.resp.dev_id m.callbacks ≡ some cbs
      → or_zero (get task.resp.dev_id m.wake_deadlines) ≡ deadline
      → All (λ t. t < task.start + deadline) before
      → task.start + deadline ≤ now
      → (is_armed task (drive (before ++ now ∷ after) task m).timers ≡ false)
        × (answers (drive (before ++ now ∷ after) task m).events
            ≡ answers m.events ++ map timed_out cbs)
        × (get task.resp.dev_id (drive (before ++ now ∷ after) task m).callbacks ≡ some [])
  unfolding drive
  drive-Ended [] now after task deadline cbs m armed waiting is_deadline early late =
      let over : ltb now (task.start + or_zero (get task.resp.dev_id m.wake_deadlines)) ≡ false =
        rw is_deadline (ground arith) in
      let ended = fire_ends task now cbs m over waiting in
      rw (armed, off_lem after task (fire lib has_server task now m) ended.0) ended
  drive-Ended (t ∷ before) now after task deadline cbs m armed waiting is_deadline (soon, early)
        late =
      let not_yet : ltb t (task.start + or_zero (get task.resp.dev_id m.wake_deadlines)) ≡ true =
        rw is_deadline (lt→ltb _ _ soon) in
      let (still, same, calls, deadlines) = fire-Waits task t m not_yet in
      let rest =
        drive-Ended before now after task deadline cbs (fire lib has_server task t m) still
          (rw calls waiting) (rw deadlines is_deadline) early late in
      rw (armed, ← same) rest

  -- From the start of a wake task to its end. Callbacks wait for a device without a deadline, the
  -- task is started and first runs inside the timeout, and the handler runs it on at any times of
  -- which one is past the timeout: all are told once that the time is over, and none waits any more.
  pub arm_task-Ended :
      (resp : DeviceRespBean) (start now : ℕ) (before : List ℕ) (last : ℕ) (after : List ℕ)
      (cbs : List ℕ) (m : LowPowerDeviceManager)
      → get resp.dev_id m.callbacks ≡ some cbs
      → get resp.dev_id m.wake_deadlines ≡ none
      → now < start + m.wake_timeout_ms
      → All (λ t. t < start + m.wake_timeout_ms) before
      → start + m.wake_timeout_ms ≤ last
      → (let task = new_task lib has_server resp start m in
          let final =
            drive (before ++ last ∷ after) task (arm_task lib has_server resp start now m) in
          (answers final.events ≡ answers m.events ++ map timed_out cbs)
          × (get resp.dev_id final.callbacks ≡ some []))
  unfolding arm_task
  arm_task-Ended resp start now before last after cbs m waiting unset soon early late =
      let task : Task = new_task lib has_server resp start m in
      let armed : LowPowerDeviceManager = with_deadline lib has_server resp m in
      let deadline : or_zero (get resp.dev_id armed.wake_deadlines) ≡ m.wake_timeout_ms =
        ap or_zero (
          ap
            (λ (o : Option ℕ).
              get resp.dev_id
                (put_missing lib has_server o resp.dev_id m.wake_timeout_ms m.wake_deadlines))
            unset
          ∙ get-put_self resp.dev_id m.wake_timeout_ms m.wake_deadlines) in
      let first : ltb now (start + or_zero (get resp.dev_id armed.wake_deadlines)) ≡ true =
        rw deadline (lt→ltb _ _ soon) in
      let (still, same, calls, deadlines) = run_task-Waits task now armed first in
      let (off, told, gone) =
        drive-Ended before last after task m.wake_timeout_ms cbs
          (arm_task lib has_server resp start now m) still (rw calls waiting)
          (rw deadlines deadline) early late in
      (told ∙ ap (λ (es : List Event). es ++ map timed_out cbs) same, gone)
