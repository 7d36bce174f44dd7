-- ===== src/Runtime/Closing.antt =====
-- `Restore`, `Status`, `Purge` and `Shutdown` of internal/runtime/manager.go, and the manager's calls as
-- one step.
use wechatcopilot.Prelude.{
  ℕ, String, Bool, true, false, not, ◌&&◌, Option, none, some, List, [], ◌∷◌, contains, Dict,
  if◌then◌else◌, Result, ok, err,
}
use wechatcopilot.Driver.{Platform, Status, DriverError}
use wechatcopilot.Account.Registry.{Account, Store}
use wechatcopilot.Account.Registry as Registry
use wechatcopilot.Account.Update.{resolve}
use wechatcopilot.Account.Deletion.{Root}
use wechatcopilot.Account.Calls as Calls
use wechatcopilot.Runtime.{
  ActiveRuntime, Repair, Manager, Error, registry, driver_failed, context_done, no_driver,
  still_active, no_purger, Answers, stop_runtime, still_running,
}
use wechatcopilot.Runtime.Lifecycle.{
  Outcome, report, find_driver, activate_account, deactivate_account, begin_delete_account, repair,
  with_accounts,
}

-- The loop of `Restore`, over the accounts as they were listed; each activation has answers of its own.
unfoldable pub restore_each : (String → Answers) → List Account → Manager → Manager × List Error
restore_each w [] m = (m, [])
restore_each w (a ∷ rest) m =
    let tried = activate_account (w a.id) true m a.id in
    let skipped = restore_each w rest m in
    let (m', errors) = restore_each w rest tried.0 in
    if a.active && not a.deleting
    then (m', elim tried.1 [ ok _ ↦ errors | err e ↦ e ∷ errors ])
    else skipped

unfoldable pub restore :
    (List Account → List Account) → (String → Answers) → Manager → Manager × List Error
restore listed w m = restore_each w (listed m.accounts.registry.accounts) m

-- The status of an account whose driver does not run is the one that the registry has; of an account
-- that is not there it is an empty one.
stored_status : ℕ → Error → Result Registry.Error Account → Result Error Status
stored_status now (registry Registry.is_deleting) a = err (registry Registry.is_deleting)
stored_status now e (err f) =
    ok (record { state = ""; identity = none; reason = ""; client_version = ""; observed_at = now })
stored_status now e (ok a) = ok (record {
  state = a.state;
  identity = a.identity;
  reason = a.last_error;
  client_version = a.client_version;
  observed_at = now;
})

unfoldable pub read_status :
    Answers → ActiveRuntime → Manager → Result DriverError Status → Outcome Status
read_status w r m (err e) = (m, err (driver_failed e))
read_status w r m (ok status) = (report w r.account.id status m, ok status)

unfoldable pub status_of : Answers → Manager → String → Result Error ActiveRuntime → Outcome Status
unfolding stored_status
status_of w m value (err e) = (m, stored_status w.now e (resolve m.accounts value))
status_of w m value (ok r) = read_status w r m w.status

-- `Status`
unfoldable pub account_status : Answers → Manager → String → Outcome Status
account_status w m value = status_of w m value (find_driver m value)

-- What `Purge` meets behind its checks: whether the driver can purge, and the error of its purge.
pub record Purging : Type 0 where
  pub purges : Bool
  pub purge_error : Option DriverError

purged : Answers → Purging → Option Error
purged w p = elim w.factory_error [
  | some e ↦ some (driver_failed e)
  | none ↦
      if not p.purges
      then some no_purger
      else elim p.purge_error [ some e ↦ some (driver_failed e) | none ↦ none ]
]

purge_found : Answers → Purging → Manager → Result Registry.Error Account → Option Error
unfolding purged
purge_found w p m (err e) = some (registry e)
purge_found w p m (ok target) =
    if target.active
    then some still_active
    else if not w.locks
    then some context_done
    else if not (contains target.platform m.factories)
    then some no_driver
    else purged w p

-- `Purge`: its error, if any. It changes nothing that the manager keeps.
unfoldable pub purge : Answers → Purging → Manager → String → Option Error
unfolding purge_found
purge w p m value = purge_found w p m (resolve m.accounts value)

-- The runtimes that `Shutdown` took out of their slots are stopped.
unfoldable pub stop_each :
    (Platform → Answers) → Dict ActiveRuntime → Manager → Manager × List Error
stop_each w [] m = (m, [])
stop_each w ((platform, r) ∷ rest) m =
    let s = stop_runtime (w platform) false r in
    let (m', errors) = stop_each w rest (record m { running = still_running s m.running }) in
    (m', elim s.failure [ none ↦ errors | some e ↦ e ∷ errors ])

-- `Shutdown`: `locks` says whether both platforms could be locked.
unfoldable pub shutdown : Bool → (Platform → Answers) → Manager → Manager × List Error
shutdown locks w m =
    if not locks
    then (m, context_done ∷ [])
    else stop_each w m.active (record m { closed = true; active = [] })

-- The calls that change the manager or, past it, the registry that it uses.
pub data Call : Type 0 where
  activates : Answers → String → Call
  restores : (String → Answers) → Call
  deactivates : Answers → String → Call
  begins_delete : Answers → String → Call
  reads_status : Answers → String → Call
  repairs : Repair → Call
  shuts_down : Bool → (Platform → Answers) → Call
  calls_registry : ℕ → Calls.Call → Call

module _ (relative : Root → String → Option String) (listed : List Account → List Account) where
  unfoldable pub step : Manager → Call → Manager
  step m (activates w value) = (activate_account w false m value).0
  step m (restores w) = (restore listed w m).0
  step m (deactivates w value) = (deactivate_account w m value).0
  step m (begins_delete w value) = (begin_delete_account w m value).0
  step m (reads_status w value) = (account_status w m value).0
  step m (repairs p) = repair p m
  step m (shuts_down locks w) = (shutdown locks w m).0
  step m (calls_registry now call) = with_accounts (Calls.step relative m.accounts now call) m

  unfoldable pub run : Manager → List Call → Manager
  run m [] = m
  run m (c ∷ rest) = run (step m c) rest
