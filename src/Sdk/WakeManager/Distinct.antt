-- ===== src/Sdk/WakeManager/Distinct.antt =====
-- sdk/low_power.py: no callback waits twice for the same device.
use pypopur.Prelude.{
  ◌++◌, arith, ◌∙◌, true, some, ℕ, inr, false, ◌≡◌, refl, none, List, Option, ◌∷◌, sym, ◌+◌, [],
  Bool, inl, if◌then◌else◌, ◌==◌, Bool-cases, some_inj, ltb, Option-cases,
}
use pypopur.Prelude.Dict.{get-put, put, Dict, get}
use pypopur.Prelude.Eq.{text_eq, text_Eq}
use pypopur.Prelude.Int.{ℤ}
use pypopur.Py.{Chars}
use pypopur.Py.Text.{is_empty}
use pypopur.Sdk.Crypto.{CryptoLib}
use pypopur.Sdk.WakeManager.{
  or_zero, start_wake_task, new_task, wake_low_power, wake, is_member, on_check_success, Task,
  check_later, dispatch_result, check_success, success, unsupport, awake_timeout, on_success,
  LowPowerDeviceManager, wait, LowPowerAwakeRsp, register_callback, with_deadline, tell, Check,
  run_task, say, fan_out, release, DeviceRespBean, send_awake, arm_task, enrol, fire, awake_by_id,
  remove_task, timed, without_task, check_failure, LowPowerConnectResult, awake, check_raises,
  redirect, wakeable, already_awake,
}

abbrev pub Distinct : List ℕ → Type 0
Distinct [] = Unit
Distinct (x ∷ xs) = (is_member x xs ≡ false) × Distinct xs

is_member-append :
    (x y : ℕ) (xs : List ℕ)
    → is_member x xs ≡ false
    → (x == y) ≡ false
    → is_member x (xs ++ y ∷ []) ≡ false
unfolding is_member
is_member-append x y [] h other = rw other refl
is_member-append x y (z ∷ xs) h other = ground (arith, is_member-append x y xs)

Distinct-append :
    (xs : List ℕ) (y : ℕ) → Distinct xs → is_member y xs ≡ false → Distinct (xs ++ y ∷ [])
unfolding is_member
Distinct-append [] y d new = (refl, tt)
Distinct-append (x ∷ xs) y (once, d) new =
    let other : (x == y) ≡ false = ground arith in
    let rest : is_member y xs ≡ false = ground arith in
    (is_member-append x y xs once other, Distinct-append xs y d rest)

-- The invariant of the registry.
abbrev pub Registry : LowPowerDeviceManager → Type 0
Registry m = (dev_id : Chars) (cbs : List ℕ) → get dev_id m.callbacks ≡ some cbs → Distinct cbs

put_lem :
    (dev_id : Chars) (cbs : List ℕ) (d : Dict Chars (List ℕ))
    → Distinct cbs
    → ((k : Chars) (found : List ℕ) → get k d ≡ some found → Distinct found)
    → (k : Chars) (found : List ℕ) → get k (put dev_id cbs d) ≡ some found
    → Distinct found
put_lem dev_id cbs d distinct rest k found h = elim (Bool-cases (text_eq dev_id k)) [
  | inl same ↦
      let e : cbs ≡ found = some_inj (sym (get-put dev_id k cbs d ∙ rw same refl) ∙ h) in
      rw (← e) distinct
  | inr other ↦ rest k found (sym (get-put dev_id k cbs d ∙ rw other refl) ∙ h)
]

enrol-Registry :
    (dev_id : Chars) (callback : ℕ) (m : LowPowerDeviceManager) (o : Option (List ℕ))
    → get dev_id m.callbacks ≡ o
    → Registry m
    → Registry (enrol dev_id callback m o)
unfolding is_member
enrol-Registry dev_id callback m none e h = put_lem dev_id (callback ∷ []) m.callbacks (refl, tt) h
enrol-Registry dev_id callback m (some cbs) e h = elim (Bool-cases (is_member callback cbs)) [
  | inl old ↦ rw old h
  | inr new ↦ rw new (
      put_lem dev_id (cbs ++ callback ∷ []) m.callbacks
        (Distinct-append cbs callback (h dev_id cbs e) new) h)
]

register_callback-Registry :
    (dev_id : Chars) (callback : ℕ) (m : LowPowerDeviceManager)
    → Registry m
    → Registry (register_callback dev_id callback m)
unfolding register_callback
register_callback-Registry dev_id callback m h = enrol-Registry dev_id callback m _ refl h

tell-Registry :
    (dev_id : Chars) (rsp : LowPowerAwakeRsp) (m : LowPowerDeviceManager) (o : Option (List ℕ))
    → Registry m
    → Registry (tell dev_id rsp m o)
tell-Registry dev_id rsp m none h = h
tell-Registry dev_id rsp m (some cbs) h = put_lem dev_id [] m.callbacks tt h

dispatch_result-Registry :
    (dev_id : Chars) (rsp : LowPowerAwakeRsp) (m : LowPowerDeviceManager)
    → Registry m
    → Registry (dispatch_result dev_id rsp m)
unfolding dispatch_result fan_out
dispatch_result-Registry dev_id rsp m h = tell-Registry dev_id rsp (without_task dev_id m) _ h

on_check_success-Registry :
    (dev_id : Chars) (results : List LowPowerConnectResult) (m : LowPowerDeviceManager)
    → Registry m
    → Registry (on_check_success dev_id results m)
unfolding on_check_success
on_check_success-Registry dev_id [] m h = dispatch_result-Registry dev_id unsupport m h
on_check_success-Registry dev_id (result ∷ results) m h =
    elim (Bool-cases result.low_power_connect) [
      | inl e ↦ rw e h
      | inr e ↦ rw e (dispatch_result-Registry dev_id success _ h)
    ]

release-Registry :
    (destroy : Bool) (m : LowPowerDeviceManager) → Registry m → Registry (release destroy m)
unfolding release get
release-Registry true m h = λ dev_id cbs e. cc
release-Registry false m h = h

if-Registry :
    (b : Bool) (x y : LowPowerDeviceManager)
    → Registry x
    → Registry y
    → Registry (if b then x else y)
if-Registry true x y hx hy = hx
if-Registry false x y hx hy = hy

module _ (lib : CryptoLib) (has_server : Bool) where
  send_awake-Registry :
      (resp : DeviceRespBean) (m : LowPowerDeviceManager)
      → Registry m
      → Registry (send_awake lib has_server resp m)
  unfolding send_awake
  send_awake-Registry resp m h = elim (Bool-cases has_server) [ inl e ↦ rw e h | inr e ↦ rw e h ]

  run_task-Registry :
      (task : Task) (now : ℕ) (m : LowPowerDeviceManager)
      → Registry m
      → Registry (run_task lib has_server task now m)
  unfolding run_task
  run_task-Registry task now m h =
      elim (Bool-cases (ltb now (task.start + or_zero (get task.resp.dev_id m.wake_deadlines)))) [
        | inl e ↦ rw e (send_awake-Registry task.resp _ h)
        | inr e ↦ rw e (dispatch_result-Registry task.resp.dev_id awake_timeout m h)
      ]

  arm_task-Registry :
      (resp : DeviceRespBean) (start now : ℕ) (m : LowPowerDeviceManager)
      → Registry m
      → Registry (arm_task lib has_server resp start now m)
  unfolding arm_task
  arm_task-Registry resp start now m h =
      run_task-Registry (new_task lib has_server resp start m) now
        (with_deadline lib has_server resp m) h

  start_wake_task-Registry :
      (resp : DeviceRespBean) (check : Check) (start now : ℕ) (m : LowPowerDeviceManager)
      → Registry m
      → Registry (start_wake_task lib has_server resp check start now m)
  unfolding start_wake_task
  start_wake_task-Registry resp check_raises start now m h =
      dispatch_result-Registry resp.dev_id unsupport m h
  start_wake_task-Registry resp check_failure start now m h = arm_task-Registry resp start now m h
  start_wake_task-Registry resp check_later start now m h = arm_task-Registry resp start now m h
  start_wake_task-Registry resp (check_success results) start now m h =
      arm_task-Registry resp start now (on_check_success resp.dev_id results m)
        (on_check_success-Registry resp.dev_id results m h)

  wait-Registry :
      (dev_id : Chars) (resp : DeviceRespBean) (callback : ℕ) (check : Check) (start now : ℕ)
      (m : LowPowerDeviceManager)
      → Registry m
      → Registry (wait lib has_server dev_id resp callback check start now m)
  unfolding wait
  wait-Registry dev_id resp callback check start now m h =
      let waiting = register_callback-Registry dev_id callback m h in
      elim (Option-cases (get dev_id m.wake_tasks)) [
        | inl e ↦
            rw (wait, e)
              (start_wake_task-Registry resp check start now (register_callback dev_id callback m)
                waiting)
        | inr (task, e) ↦ rw (wait, e) waiting
      ]

  wake_low_power-Registry :
      (dev_id : Chars) (resp : DeviceRespBean) (timeout_ms : ℤ) (callback : ℕ) (check : Check)
      (start now : ℕ) (m : LowPowerDeviceManager)
      → Registry m
      → Registry (wake_low_power lib has_server dev_id resp timeout_ms callback check start now m)
  unfolding wake_low_power
  wake_low_power-Registry dev_id resp timeout_ms callback check start now m h =
      if-Registry
        (already_awake lib has_server (get dev_id m.awake_flags) (get dev_id m.awake_change_times)
          resp)
        (say (on_success callback success) (send_awake lib has_server resp (timed timeout_ms m)))
        (wait lib has_server dev_id resp callback check start now (timed timeout_ms m))
        (send_awake-Registry resp (timed timeout_ms m) h)
        (wait-Registry dev_id resp callback check start now (timed timeout_ms m) h)

  wake-Registry :
      (product : Option (Option (List Chars))) (dev_id : Chars) (resp : DeviceRespBean)
      (timeout_ms : ℤ) (callback : ℕ) (check : Check) (start now : ℕ) (m : LowPowerDeviceManager)
      → Registry m
      → Registry (wake lib has_server product dev_id resp timeout_ms callback check start now m)
  unfolding wake
  wake-Registry none dev_id resp timeout_ms callback check start now m h = h
  wake-Registry (some metas) dev_id resp timeout_ms callback check start now m h =
      let woken : LowPowerDeviceManager =
        wake_low_power lib has_server dev_id resp timeout_ms callback check start now m in
      let refused : LowPowerDeviceManager = say (on_success callback unsupport) m in
      if-Registry resp.virtual (say (on_success callback success) m)
        (if wakeable lib has_server metas then woken else refused) h
        (if-Registry (wakeable lib has_server metas) woken refused
          (wake_low_power-Registry dev_id resp timeout_ms callback check start now m h) h)

  awake-Registry :
      (get_dev_resp_bean : Chars → Option DeviceRespBean) (dev_id : Chars) (timeout_ms : ℤ)
      (callback : Option ℕ) (check : Check) (start now : ℕ) (m : LowPowerDeviceManager)
      → Registry m
      → Registry
          (awake lib has_server get_dev_resp_bean dev_id timeout_ms callback check start now m)
  unfolding awake awake_by_id
  awake-Registry beans dev_id timeout_ms none check start now m h =
      elim (Bool-cases (is_empty dev_id)) [
        | inl e ↦ rw (awake, e) h
        | inr e ↦ elim (Option-cases (beans dev_id)) [
          | inl d ↦ rw (awake, e, d) h
          | inr (resp, d) ↦ rw (awake, e, d) (send_awake-Registry resp m h)
        ]
      ]
  awake-Registry beans dev_id timeout_ms (some callback) check start now m h =
      elim (Bool-cases (is_empty dev_id)) [
        | inl e ↦ rw (awake, e) h
        | inr e ↦ elim (Option-cases (beans dev_id)) [
          | inl d ↦ rw (awake, e, d) h
          | inr (resp, d) ↦
              elim (Option-cases (redirect lib has_server beans dev_id resp.communication_node)) [
                | inl n ↦
                    rw (awake, e, d, n)
                      (wake-Registry resp.product_ref_bean dev_id resp timeout_ms callback check
                        start now m h)
                | inr (node, n) ↦ elim (Option-cases (beans node)) [
                  | inl p ↦ rw (awake, e, d, n, p) h
                  | inr (parent, p) ↦
                      rw (awake, e, d, n, p)
                        (wake-Registry parent.product_ref_bean node parent timeout_ms callback check
                          start now m h)
                ]
              ]
        ]
      ]

  -- What happens to a manager.
  pub data Step (get_dev_resp_bean : Chars → Option DeviceRespBean)
      : LowPowerDeviceManager → LowPowerDeviceManager → Type 0 where
    awakes :
        (m : LowPowerDeviceManager) (dev_id : Chars) (timeout_ms : ℤ) (callback : Option ℕ)
        (check : Check) (start now : ℕ)
        → Step get_dev_resp_bean m
            (awake lib has_server get_dev_resp_bean dev_id timeout_ms callback check start now m)
    fires :
        (m : LowPowerDeviceManager) (task : Task) (now : ℕ)
        → Step get_dev_resp_bean m (fire lib has_server task now m)
    checked :
        (m : LowPowerDeviceManager) (dev_id : Chars) (results : List LowPowerConnectResult)
        → Step get_dev_resp_bean m (on_check_success dev_id results m)
    released :
        (m : LowPowerDeviceManager) (destroy : Bool) → Step get_dev_resp_bean m (release destroy m)

  pub data Reach (beans : Chars → Option DeviceRespBean) (m : LowPowerDeviceManager)
      : LowPowerDeviceManager → Type 0 where
    initially : Reach beans m m
    next : {n p : LowPowerDeviceManager} → Reach beans m n → Step beans n p → Reach beans m p

  Step-Registry :
      (beans : Chars → Option DeviceRespBean) {m n : LowPowerDeviceManager}
      → Step beans m n
      → Registry m
      → Registry n
  unfolding fire
  Step-Registry beans (awakes m dev_id timeout_ms callback check start now) h =
      awake-Registry beans dev_id timeout_ms callback check start now m h
  Step-Registry beans (fires m task now) h =
      run_task-Registry task now (record m { timers = remove_task task m.timers }) h
  Step-Registry beans (checked m dev_id results) h = on_check_success-Registry dev_id results m h
  Step-Registry beans (released m destroy) h = release-Registry destroy m h

  -- In every state that a manager reaches from one in which no callback stands twice in the list of
  -- a device, none does: whatever is awoken, runs, is checked or is released, in any order.
  pub Reach-Registry :
      (beans : Chars → Option DeviceRespBean) {m n : LowPowerDeviceManager}
      → Registry m
      → Reach beans m n
      → (dev_id : Chars) (cbs : List ℕ) → get dev_id n.callbacks ≡ some cbs
      → Distinct cbs
  Reach-Registry beans h initially = h
  Reach-Registry beans h (next r step) = Step-Registry beans step (Reach-Registry beans h r)
