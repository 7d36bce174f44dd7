-- ===== src/Runtime/Rollback.antt =====
-- What an activation that fails takes back.
use wechatcopilot.Prelude.{
  String, true, false, Option, none, some, contains, ◌≡◌, refl, sym, inl, inr, Result, ok, err, In,
  dict_get, Bool-cases,
}
use wechatcopilot.Driver.{DriverError, Status}
use wechatcopilot.Account.Registry.{Account, Store}
use wechatcopilot.Account.Registry as Registry
use wechatcopilot.Account.Update.{resolve, activate, update_status}
use wechatcopilot.Account.Deletion.{Root}
use wechatcopilot.Account.Keys.{IsWellFormed}
use wechatcopilot.Account.Found.{resolve-own}
use wechatcopilot.Account.Preserved.{IsTarget, activate-IsTarget}
use wechatcopilot.Account.Stopping.{IsIdle, deactivate-IsIdle}
use wechatcopilot.Account.Calls as Calls
use wechatcopilot.Account.Invariant.{step-IsWellFormed}
use wechatcopilot.Runtime.{
  ActiveRuntime, Manager, Error, registry, driver_failed, context_done, manager_closed, no_driver,
  Answers, degraded,
}
use wechatcopilot.Runtime.Lifecycle.{
  Outcome, started_answer, with_accounts, looked_up, resolved, report, take_back,
  record_activation_failure, status_or_degraded, take_slot, log_start, after_start, after_factory,
  after_mkdir, start_driver, activated_entry, activate_free, with_slot, activate_locked,
  activate_found, activate_account,
}

abbrev anywhere : Root → String → Option String
anywhere root id = none

-- The account is not active in the registry, and no driver and no slot has changed.
pub record IsRolledBack (id : String) (m n : Manager) : Type 0 where
  pub idle : IsIdle id n.accounts.registry.accounts
  pub running_kept : n.running ≡ m.running
  pub slots_kept : n.active ≡ m.active

record_failure-IsRolledBack :
    (w : Answers) (id reason : String) (m : Manager)
    → w.deactivate_written ≡ true
    → IsWellFormed m.accounts.registry.accounts
    → IsRolledBack id m (record_activation_failure w false id reason m)
unfolding record_activation_failure take_back report with_accounts
record_failure-IsRolledBack w id reason m written formed =
    let s = (update_status m.accounts id (degraded w.now reason) w.now w.status_written).0 in
    record {
      idle = simp written (
          deactivate-IsIdle s id w.now (
            unfold Calls.step in
            step-IsWellFormed anywhere m.accounts w.now
              (Calls.reports id (degraded w.now reason) w.status_written) formed));
      running_kept = refl;
      slots_kept = refl;
    }

-- The answer of an activation whose driver failed.
abbrev IsFailure : DriverError → Outcome Account → Type 0
IsFailure d o = o.1 ≡ err (driver_failed d)

answer-fails :
    (m : Manager) (status : Result DriverError Status) (o : Result Registry.Error Account)
    (d : DriverError)
    → ¬ (started_answer false status (looked_up m o) ≡ err (driver_failed d))
unfolding started_answer looked_up
answer-fails m status (ok a) d q = cc
answer-fails m status (err e) d q = cc

after_start-fails :
    (w : Answers) (a : Account) (m : Manager) (d : DriverError)
    → ¬ IsFailure d (after_start w false a m)
unfolding after_start resolved
after_start-fails w a m d q =
    let n = take_slot a (report w a.id (status_or_degraded w w.status) (log_start a m)) in
    answer-fails n w.status (resolve n.accounts a.id) d q

after_factory-IsRolledBack :
    (w : Answers) (a : Account) (m : Manager) (d : DriverError) (o : Option DriverError)
    → w.deactivate_written ≡ true
    → IsWellFormed m.accounts.registry.accounts
    → IsFailure d (after_factory w false a m o)
    → IsRolledBack a.id m (after_factory w false a m o).0
unfolding after_factory
after_factory-IsRolledBack w a m d (some e) written formed q =
    record_failure-IsRolledBack w a.id e.message m written formed
after_factory-IsRolledBack w a m d none written formed q = absurd (after_start-fails w a m d q)

after_mkdir-IsRolledBack :
    (w : Answers) (a : Account) (m : Manager) (d : DriverError) (o : Option DriverError)
    → w.deactivate_written ≡ true
    → IsWellFormed m.accounts.registry.accounts
    → IsFailure d (after_mkdir w false a m o)
    → IsRolledBack a.id m (after_mkdir w false a m o).0
unfolding after_mkdir
after_mkdir-IsRolledBack w a m d (some e) written formed q =
    record_failure-IsRolledBack w a.id e.message m written formed
after_mkdir-IsRolledBack w a m d none written formed q =
    after_factory-IsRolledBack w a m d w.start_error written formed q

start_driver-IsRolledBack :
    (w : Answers) (a : Account) (m : Manager) (d : DriverError) (o : Option String)
    → w.deactivate_written ≡ true
    → IsWellFormed m.accounts.registry.accounts
    → IsFailure d (start_driver w false a m o)
    → IsRolledBack a.id m (start_driver w false a m o).0
unfolding start_driver
start_driver-IsRolledBack w a m d (some e) written formed q =
    record_failure-IsRolledBack w a.id e m written formed
start_driver-IsRolledBack w a m d none written formed q =
    after_mkdir-IsRolledBack w a m d w.factory_error written formed q

activated_entry-IsRolledBack :
    (w : Answers) (target : Account) (m : Manager) (d : DriverError)
    (o : Store × Result Registry.Error (Account × Option Account))
    → w.deactivate_written ≡ true
    → IsWellFormed o.0.registry.accounts
    → IsTarget target o.1
    → IsFailure d (activated_entry w false m o)
    → IsRolledBack target.id m (activated_entry w false m o).0
unfolding activated_entry with_accounts
activated_entry-IsRolledBack w target m d (s, err e) written formed t q = absurd (other e q)
  where
    other :
        (e : Registry.Error)
        → ◌≡◌ {A = Result Error Account} (err (registry e)) (err (driver_failed d))
        → ⊥
    other e q = cc
activated_entry-IsRolledBack w target m d (s, ok (a, previous)) written formed t q =
    let v =
      start_driver-IsRolledBack w a (record m { accounts = s }) d w.mkdir_error written formed q in
    record { idle = rw (sym t.0) v.idle; running_kept = v.running_kept; slots_kept = v.slots_kept }

activate_free-IsRolledBack :
    (w : Answers) (target : Account) (m : Manager) (d : DriverError)
    → w.deactivate_written ≡ true
    → IsWellFormed m.accounts.registry.accounts
    → In target m.accounts.registry.accounts
    → IsFailure d (activate_free w false target m)
    → IsRolledBack target.id m (activate_free w false target m).0
unfolding activate_free
activate_free-IsRolledBack w target m d written formed i q =
    activated_entry-IsRolledBack w target m d
      (activate m.accounts target.id w.now w.activate_written) written
      (unfold Calls.step in
        step-IsWellFormed anywhere m.accounts w.now (Calls.activates target.id w.activate_written)
          formed)
      (activate-IsTarget m.accounts target w.now w.activate_written formed i) q

with_slot-IsRolledBack :
    (w : Answers) (target : Account) (m : Manager) (d : DriverError) (o : Option ActiveRuntime)
    → o ≡ none
    → w.deactivate_written ≡ true
    → IsWellFormed m.accounts.registry.accounts
    → In target m.accounts.registry.accounts
    → IsFailure d (with_slot w false target m o)
    → IsRolledBack target.id m (with_slot w false target m o).0
unfolding with_slot
with_slot-IsRolledBack w target m d none empty written formed i q =
    activate_free-IsRolledBack w target m d written formed i q
with_slot-IsRolledBack w target m d (some r) empty written formed i q = absurd (taken empty)
  where
    taken : some r ≡ none → ⊥
    taken e = cc

activate_locked-IsRolledBack :
    (w : Answers) (target : Account) (m : Manager) (d : DriverError)
    → dict_get m.active target.platform ≡ none
    → w.deactivate_written ≡ true
    → IsWellFormed m.accounts.registry.accounts
    → In target m.accounts.registry.accounts
    → IsFailure d (activate_locked w false m (ok target))
    → IsRolledBack target.id m (activate_locked w false m (ok target)).0
unfolding activate_locked
activate_locked-IsRolledBack w target m d empty written formed i q =
    elim (Bool-cases target.deleting) [
      | inl h ↦ absurd (deleted (simp h at q))
      | inr h ↦ elim (Bool-cases m.closed) [
        | inl c ↦ absurd (shut (simp (h, c) at q))
        | inr c ↦ elim (Bool-cases (contains target.platform m.factories)) [
          | inr k ↦ absurd (foreign (simp (h, c, k) at q))
          | inl k ↦
              simp (h, c, k)
                (with_slot-IsRolledBack w target m d (dict_get m.active target.platform) empty
                  written formed i (simp (h, c, k) at q))
        ]
      ]
    ]
  where
    deleted :
        ◌≡◌ {A = Result Error Account} (err (registry Registry.is_deleting)) (err (driver_failed d))
        → ⊥
    deleted e = cc

    shut : ◌≡◌ {A = Result Error Account} (err manager_closed) (err (driver_failed d)) → ⊥
    shut e = cc

    foreign : ◌≡◌ {A = Result Error Account} (err no_driver) (err (driver_failed d)) → ⊥
    foreign e = cc

-- An explicit activation of an account of a well-formed registry, whose platform has an empty slot, that fails with an
-- error of the driver, leaves the account inactive, the drivers that run and the slots as they were, if `Deactivate` can
-- write the registry file.
pub activate_account-IsRolledBack :
    (w : Answers) (m : Manager) (target : Account) (d : DriverError)
    → IsWellFormed m.accounts.registry.accounts
    → In target m.accounts.registry.accounts
    → dict_get m.active target.platform ≡ none
    → w.deactivate_written ≡ true
    → (activate_account w false m target.id).1 ≡ err (driver_failed d)
    → IsRolledBack target.id m (activate_account w false m target.id).0
unfolding activate_account activate_found
activate_account-IsRolledBack w m target d formed i empty written q =
    let found = (resolve-own m.accounts target formed i).0 in
    rw found (elim (Bool-cases target.deleting) [
      | inl h ↦ absurd (deleted (simp (found, h) at q))
      | inr h ↦ elim (Bool-cases w.locks) [
        | inr l ↦ absurd (waited (simp (found, h, l) at q))
        | inl l ↦
            simp (found, h, l)
              (activate_locked-IsRolledBack w target m d empty written formed i
                (simp (found, h, l) at q))
      ]
    ])
  where
    deleted :
        ◌≡◌ {A = Result Error Account} (err (registry Registry.is_deleting)) (err (driver_failed d))
        → ⊥
    deleted e = cc

    waited : ◌≡◌ {A = Result Error Account} (err context_done) (err (driver_failed d)) → ⊥
    waited e = cc
