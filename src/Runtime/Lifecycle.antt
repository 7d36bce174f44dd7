-- ===== src/Runtime/Lifecycle.antt =====
-- Activation, deactivation and the other calls of internal/runtime/manager.go.
use wechatcopilot.Prelude.{
  suc, String, Bool, true, false, not, ◌&&◌, Option, none, some, ◌∷◌, ◌==◌, contains, dict_get,
  dict_put, if◌then◌else◌, Result, ok, err,
}
use wechatcopilot.Driver.{Platform, Status, DriverError}
use wechatcopilot.Account.Registry.{Account, Store}
use wechatcopilot.Account.Registry as Registry
use wechatcopilot.Account.Update.{resolve, activate, deactivate, update_status}
use wechatcopilot.Account.Deletion.{begin_delete}
use wechatcopilot.Runtime.{
  ActiveRuntime, Repair, Manager, Error, registry, driver_failed, os_failed, context_done,
  manager_closed, no_driver, not_active, Answers, degraded, start_ingest, stop_runtime,
  keep_stopped, clear_slot, same_loop,
}

abbrev pub Outcome : Type 0 → Type 0
Outcome A = Manager × Result Error A

-- The registry is the store that a call of it leaves behind.
unfoldable pub with_accounts : Store → Manager → Manager
with_accounts s m = record m { accounts = s }

unfoldable pub looked_up : Manager → Result Registry.Error Account → Result Error Account
looked_up m (ok a) = ok a
looked_up m (err e) = err (registry e)

-- `m.accounts.Resolve(id)` at the end of a call.
unfoldable pub resolved : Manager → String → Result Error Account
unfolding looked_up
resolved m id = looked_up m (resolve m.accounts id)

unfoldable pub report : Answers → String → Status → Manager → Manager
unfolding with_accounts
report w id status m = with_accounts (update_status m.accounts id status w.now w.status_written).0 m

unfoldable pub take_back : Answers → Bool → String → Manager → Manager
unfolding with_accounts
take_back w true id m = m
take_back w false id m = with_accounts (deactivate m.accounts id w.now w.deactivate_written).0 m

-- `recordActivationFailure`
unfoldable pub record_activation_failure : Answers → Bool → String → String → Manager → Manager
unfolding report take_back
record_activation_failure w restoring id reason m =
    take_back w restoring id (report w id (degraded w.now reason) m)

unfoldable pub status_or_degraded : Answers → Result DriverError Status → Status
status_or_degraded w (ok status) = status
status_or_degraded w (err e) = degraded w.now e.message

-- The runtime takes its slot, and its ingest loop starts.
unfoldable pub take_slot : Account → Manager → Manager
take_slot a m = record m {
  active = dict_put m.active a.platform (
      start_ingest
        (record { account = a; serial = m.made; loops = 0; ingesting = false; stopping = false }));
  made = suc m.made;
}

unfoldable pub log_start : Account → Manager → Manager
log_start a m = record m {
  running = record { platform = a.platform; account_id = a.id } ∷ m.running;
}

unfoldable pub started_answer :
    Bool → Result DriverError Status → Result Error Account → Result Error Account
started_answer restoring status (err e) = err e
started_answer true (err e) (ok a) = err (driver_failed e)
started_answer restoring status (ok a) = ok a

-- What follows a successful `Start`.
unfoldable pub after_start : Answers → Bool → Account → Manager → Outcome Account
unfolding report started_answer
after_start w restoring a m =
    let m' = take_slot a (report w a.id (status_or_degraded w w.status) (log_start a m)) in
    (m', started_answer restoring w.status (resolved m' a.id))

unfoldable pub after_factory :
    Answers → Bool → Account → Manager → Option DriverError → Outcome Account
after_factory w restoring a m (some e) =
    (record_activation_failure w restoring a.id e.message m, err (driver_failed e))
after_factory w restoring a m none = after_start w restoring a m

unfoldable pub after_mkdir :
    Answers → Bool → Account → Manager → Option DriverError → Outcome Account
after_mkdir w restoring a m (some e) =
    (record_activation_failure w restoring a.id e.message m, err (driver_failed e))
after_mkdir w restoring a m none = after_factory w restoring a m w.start_error

-- The directory, the factory and `Start`, the first of which to fail ends the activation.
unfoldable pub start_driver : Answers → Bool → Account → Manager → Option String → Outcome Account
start_driver w restoring a m (some reason) =
    (record_activation_failure w restoring a.id reason m, err (os_failed reason))
start_driver w restoring a m none = after_mkdir w restoring a m w.factory_error

unfoldable pub activated_entry :
    Answers
    → Bool
    → Manager
    → Store × Result Registry.Error (Account × Option Account)
    → Outcome Account
unfolding with_accounts
activated_entry w restoring m (s, err e) = (with_accounts s m, err (registry e))
activated_entry w restoring m (s, ok (a, previous)) =
    start_driver w restoring a (with_accounts s m) w.mkdir_error

-- The slot is free.
unfoldable pub activate_free : Answers → Bool → Account → Manager → Outcome Account
activate_free w restoring target m =
    activated_entry w restoring m (activate m.accounts target.id w.now w.activate_written)

unfoldable pub after_stop : Answers → Bool → Account → Manager → Option Error → Outcome Account
after_stop w restoring target m (some e) = (m, err e)
after_stop w restoring target m none =
    activate_free w restoring target (clear_slot target.platform m)

-- Another account has the slot.
unfoldable pub switch_account : Answers → Bool → Account → ActiveRuntime → Manager → Outcome Account
switch_account w restoring target r m =
    let s = stop_runtime w true r in
    after_stop w restoring target (keep_stopped target.platform s m) s.failure

-- The account has its slot already.
unfoldable pub refresh :
    Answers → ActiveRuntime → Manager → Result DriverError Status → Outcome Account
unfolding report
refresh w r m (err e) = (report w r.account.id (degraded w.now e.message) m, err (driver_failed e))
refresh w r m (ok status) =
    let m' = report w r.account.id status m in (m', resolved m' r.account.id)

unfoldable pub with_slot :
    Answers → Bool → Account → Manager → Option ActiveRuntime → Outcome Account
with_slot w restoring target m none = activate_free w restoring target m
with_slot w restoring target m (some r) =
    if r.account.id == target.id
    then (if not restoring then (m, ok r.account) else refresh w r m w.status)
    else switch_account w restoring target r m

-- The checks under the lock of the platform.
unfoldable pub activate_locked :
    Answers → Bool → Manager → Result Registry.Error Account → Outcome Account
activate_locked w restoring m (err e) = (m, err (registry e))
activate_locked w restoring m (ok target) =
    if target.deleting
    then (m, err (registry Registry.is_deleting))
    else if restoring && not target.active
    then (m, ok target)
    else if m.closed
    then (m, err manager_closed)
    else if not (contains target.platform m.factories)
    then (m, err no_driver)
    else with_slot w restoring target m (dict_get m.active target.platform)

unfoldable pub activate_found :
    Answers → Bool → Manager → Result Registry.Error Account → Outcome Account
activate_found w restoring m (err e) = (m, err (registry e))
activate_found w restoring m (ok target) =
    if target.deleting
    then (m, err (registry Registry.is_deleting))
    else if not w.locks
    then (m, err context_done)
    else activate_locked w restoring m (resolve m.accounts target.id)

-- `Activate` and its likeness for `Restore`
unfoldable pub activate_account : Answers → Bool → Manager → String → Outcome Account
activate_account w restoring m value = activate_found w restoring m (resolve m.accounts value)

unfoldable pub deactivated_entry : Manager → Store × Result Registry.Error Account → Outcome Account
unfolding with_accounts
deactivated_entry m (s, err e) = (with_accounts s m, err (registry e))
deactivated_entry m (s, ok a) = (with_accounts s m, ok a)

unfoldable pub deactivate_free : Answers → Account → Manager → Outcome Account
deactivate_free w target m =
    deactivated_entry m (deactivate m.accounts target.id w.now w.deactivate_written)

unfoldable pub deactivate_stopped : Answers → Account → Manager → Option Error → Outcome Account
deactivate_stopped w target m (some e) = (m, err e)
deactivate_stopped w target m none = deactivate_free w target (clear_slot target.platform m)

unfoldable pub deactivate_slot :
    Answers → Account → Manager → Option ActiveRuntime → Outcome Account
deactivate_slot w target m none = deactivate_free w target m
deactivate_slot w target m (some r) =
    if r.account.id == target.id
    then (let s = stop_runtime w true r in
        deactivate_stopped w target (keep_stopped target.platform s m) s.failure)
    else deactivate_free w target m

unfoldable pub deactivate_locked :
    Answers → Manager → Result Registry.Error Account → Outcome Account
deactivate_locked w m (err e) = (m, err (registry e))
deactivate_locked w m (ok target) =
    if target.deleting
    then (m, err (registry Registry.is_deleting))
    else deactivate_slot w target m (dict_get m.active target.platform)

unfoldable pub deactivate_found :
    Answers → Manager → Result Registry.Error Account → Outcome Account
deactivate_found w m (err e) = (m, err (registry e))
deactivate_found w m (ok target) =
    if target.deleting
    then (m, err (registry Registry.is_deleting))
    else if not w.locks
    then (m, err context_done)
    else deactivate_locked w m (resolve m.accounts target.id)

-- `Deactivate`
unfoldable pub deactivate_account : Answers → Manager → String → Outcome Account
deactivate_account w m value = deactivate_found w m (resolve m.accounts value)

-- `Driver`: the account, and the runtime in the slot if it is this account's.
unfoldable pub own_slot : Account → Option ActiveRuntime → Result Error ActiveRuntime
own_slot target none = err not_active
own_slot target (some r) = if r.account.id == target.id then ok r else err not_active

unfoldable pub driver_of : Manager → Result Registry.Error Account → Result Error ActiveRuntime
driver_of m (err e) = err (registry e)
driver_of m (ok target) =
    if target.deleting
    then err (registry Registry.is_deleting)
    else own_slot target (dict_get m.active target.platform)

unfoldable pub find_driver : Manager → String → Result Error ActiveRuntime
unfolding driver_of
find_driver m value = driver_of m (resolve m.accounts value)

unfoldable pub begun_delete : Manager → Store × Result Registry.Error Account → Outcome Account
unfolding with_accounts
begun_delete m (s, err e) = (with_accounts s m, err (registry e))
begun_delete m (s, ok a) = (with_accounts s m, ok a)

unfoldable pub begin_delete_locked :
    Answers → Manager → Result Registry.Error Account → Outcome Account
begin_delete_locked w m (err e) = (m, err (registry e))
begin_delete_locked w m (ok target) =
    begun_delete m (begin_delete m.accounts target.id w.now w.status_written)

unfoldable pub begin_delete_found :
    Answers → Manager → Result Registry.Error Account → Outcome Account
begin_delete_found w m (err e) = (m, err (registry e))
begin_delete_found w m (ok target) = begin_delete_locked w m (resolve m.accounts target.id)

-- `BeginDelete`
unfoldable pub begin_delete_account : Answers → Manager → String → Outcome Account
begin_delete_account w m value = begin_delete_found w m (resolve m.accounts value)

-- The end of `restartIngestAfterExit`.
unfoldable pub may_repair : Repair → Manager → Result Registry.Error Account → Bool
may_repair p m (err e) = false
may_repair p m (ok a) =
    a.active && not a.deleting && not m.closed && same_loop p (dict_get m.active p.platform)

unfoldable pub repaired : Platform → Option ActiveRuntime → Manager → Manager
repaired platform none m = m
repaired platform (some r) m = record m { active = dict_put m.active platform (start_ingest r) }

unfoldable pub repair : Repair → Manager → Manager
unfolding repaired
repair p m =
    if may_repair p m (resolve m.accounts p.account_id)
    then repaired p.platform (dict_get m.active p.platform) m
    else m
