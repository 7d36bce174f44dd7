-- ===== src/Control.antt =====
-- The account operations of internal/service/service.go, over the registry and the runtime manager.
pub mod Gone
pub mod Targets
mod Examples
use wechatcopilot.Prelude.{
  ℕ, String, Bool, true, false, not, ◌&&◌, Option, none, some, List, if◌then◌else◌, Result, ok, err,
}
use wechatcopilot.Driver.{Platform, Status, DriverError}
use wechatcopilot.Account.Registry.{Account, Store}
use wechatcopilot.Account.Registry as Registry
use wechatcopilot.Account.Names.{is_id}
use wechatcopilot.Account.Update.{resolve}
use wechatcopilot.Account.Deletion.{Root, Removal, record_delete_failure, finalize_delete}
use wechatcopilot.Account.Add.{Chance, add}
use wechatcopilot.Runtime.{Manager, Error, registry, driver_failed, Answers}
use wechatcopilot.Runtime.Lifecycle.{
  Outcome, with_accounts, activate_account, deactivate_account, begin_delete_account,
}
use wechatcopilot.Runtime.Closing.{Purging, purge, account_status}
use wechatcopilot.Send.Commit.{found_account}
use wechatcopilot.Send.Failure.{
  Failure, app, classified_driver_error, code_invalid_argument, code_not_found, code_conflict,
  code_driver_unavailable, code_confirmation_required,
}

abbrev pub Served : Type 0 → Type 0
Served A = Manager × Result Failure A

-- `deletingAccountError`
unfoldable pub deleting_account_error : Failure
deleting_account_error = app 409 code_conflict

-- `classifiedDriverError`: only a driver gives errors with a kind.
unfoldable pub classified : Error → Option Failure
classified (driver_failed e) = classified_driver_error e
classified e = none

unfoldable pub or_else : Option Failure → Failure → Failure
or_else (some f) g = f
or_else none g = g

-- `errors.Is(err, account.ErrDeleting)`
unfoldable pub says_deleting : Error → Bool
says_deleting (registry Registry.is_deleting) = true
says_deleting e = false

unfoldable pub is_resolved : Result Registry.Error Account → Bool
is_resolved (ok a) = true
is_resolved (err e) = false

-- `AddAccount`
unfoldable pub add_answer : Manager → Store × Result Registry.Error Account → Served Account
add_answer m (s, ok a) = (with_accounts s m, ok a)
add_answer m (s, err e) = (with_accounts s m, err (app 400 code_invalid_argument))

unfoldable pub add_account : Manager → Chance → String → Platform → ℕ → Served Account
add_account m c alias platform now = add_answer m (add m.accounts c alias platform now)

-- What the calls need to know of errors: whether one wraps `os.ErrNotExist`, and its text.
module _ (is_missing : Error → Bool) (wording : Error → String) where
  unfoldable pub activation_failure : Manager → String → Error → Failure
  activation_failure m value e =
      if says_deleting e && is_resolved (resolve m.accounts value)
      then deleting_account_error
      else or_else (classified e)
          (if is_missing e then app 404 code_not_found else app 503 code_driver_unavailable)

  unfoldable pub activate_answer : String → Outcome Account → Served Account
  activate_answer value (m, ok a) = (m, ok a)
  activate_answer value (m, err e) = (m, err (activation_failure m value e))

  -- `Activate`
  unfoldable pub service_activate : Answers → Manager → String → Served Account
  service_activate w m value = activate_answer value (activate_account w false m value)

  unfoldable pub deactivation_failure : Manager → String → Error → Failure
  deactivation_failure m value e =
      if says_deleting e && is_resolved (resolve m.accounts value)
      then deleting_account_error
      else or_else (classified e) (app 400 code_invalid_argument)

  unfoldable pub deactivate_answer : String → Outcome Account → Served Account
  deactivate_answer value (m, ok a) = (m, ok a)
  deactivate_answer value (m, err e) = (m, err (deactivation_failure m value e))

  -- `Deactivate`
  unfoldable pub service_deactivate : Answers → Manager → String → Served Account
  service_deactivate w m value = deactivate_answer value (deactivate_account w m value)

  unfoldable pub status_answer : Outcome Status → Served Status
  status_answer (m, ok status) = (m, ok status)
  status_answer (m, err e) = (m, err (or_else (classified e) (app 503 code_driver_unavailable)))

  unfoldable pub status_found : Answers → Manager → String → Result Failure Account → Served Status
  status_found w m value (err e) = (m, err e)
  status_found w m value (ok a) = status_answer (account_status w m value)

  -- `Status`
  unfoldable pub service_status : Answers → Manager → String → Served Status
  service_status w m value = status_found w m value (found_account (resolve m.accounts value))

  -- What the system answers to a removal.
  pub record Removing : Type 0 where
    pub answers : Answers
    pub purging : Purging
    pub removal : Removal
    pub failure_written : Bool

  -- `recordDeleteFailure`
  unfoldable pub record_removal_failure : Removing → Manager → Account → Error → Served Account
  record_removal_failure w m item e = (
    with_accounts
        (record_delete_failure m.accounts item.id (some (wording e)) w.answers.now
          w.failure_written).0
        m,
    err deleting_account_error,
  )

  module _ (relative : Root → String → Option String) where
    unfoldable pub finalize_answer :
        Removing → Manager → Account → Store × Result Registry.Error Account → Served Account
    finalize_answer w m item (s, ok removed) = (with_accounts s m, ok removed)
    finalize_answer w m item (s, err e) =
        record_removal_failure w (with_accounts s m) item (registry e)

    unfoldable pub after_purge : Removing → Manager → Account → Option Error → Served Account
    after_purge w m item (some e) = record_removal_failure w m item e
    after_purge w m item none =
        finalize_answer w m item (finalize_delete relative m.accounts item.id w.removal)

    unfoldable pub removal_begun : Removing → Outcome Account → Served Account
    removal_begun w (m, err e) =
        (m, err (if is_missing e then app 404 code_not_found else app 409 code_conflict))
    removal_begun w (m, ok item) = after_purge w m item (purge w.answers w.purging m item.id)

    -- `RemoveAccount`
    unfoldable pub remove_account : Removing → Manager → String → Bool → Bool → Served Account
    remove_account w m value purges confirmed =
        if not confirmed
        then (m, err (app 409 code_confirmation_required))
        else if not purges
        then (m, err (app 400 code_invalid_argument))
        else if not (is_id value)
        then (m, err (app 400 code_invalid_argument))
        else removal_begun w (begin_delete_account w.answers m value)
