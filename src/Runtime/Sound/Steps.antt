-- ===== src/Runtime/Sound/Steps.antt =====
-- Every call of the manager keeps it sound.
use wechatcopilot.Prelude.{
  String, Bool, true, false, not, ◌&&◌, Option, none, some, ◌==◌, ◌≡◌, refl, sym, subst, ◌∙◌, ◌⊎◌,
  inl, inr, Result, ok, err, In, dict_get, contains, Bool-cases,
}
use wechatcopilot.Driver.{Status, DriverError}
use wechatcopilot.Account.Registry.{Account, Store}
use wechatcopilot.Account.Registry as Registry
use wechatcopilot.Account.Update.{resolve, activate, deactivate, update_status}
use wechatcopilot.Account.Deletion.{Root}
use wechatcopilot.Account.Keys.{IsWellFormed}
use wechatcopilot.Account.Preserved.{resolve-In, IsTarget, activate-IsTarget}
use wechatcopilot.Account.Calls as Calls
use wechatcopilot.Runtime.{
  ActiveRuntime, Manager, Error, Answers, degraded, Stopped, stop_runtime, keep_stopped, clear_slot,
  still_running, running_after,
}
use wechatcopilot.Runtime.Lifecycle.{
  with_accounts, report, take_back, record_activation_failure, take_slot, log_start,
  status_or_degraded, after_start, after_factory, after_mkdir, start_driver, activated_entry,
  activate_free, after_stop, switch_account, refresh, with_slot, activate_locked, activate_found,
  activate_account,
}
use wechatcopilot.Runtime.Sound.{
  Reaches, step-Reaches, Reaches-IsWellFormed, IsSound, with_accounts-IsSound,
}
use wechatcopilot.Runtime.Sound.Slots.{
  IsFree, slot-IsFree, take_slot-IsSlotted, stop_runtime-account, keep_stopped-IsSlotted,
  stopped-IsFree, clear_slot-IsSlotted,
}

module _ (relative : Root → String → Option String) (base : Store)
    (formed : IsWellFormed base.registry.accounts) where
  abbrev pub Sound : Manager → Type 0
  Sound m = IsSound relative base m

  pub report-Sound :
      (w : Answers) (id : String) (status : Status) (m : Manager)
      → Sound m
      → Sound (report w id status m)
  unfolding report
  report-Sound w id status m v =
      with_accounts-IsSound relative base
        (update_status m.accounts id status w.now w.status_written).0 m
        (unfold Calls.step in
          step-Reaches relative m.accounts w.now (Calls.reports id status w.status_written))
        v

  take_back-Sound :
      (w : Answers) (restoring : Bool) (id : String) (m : Manager)
      → Sound m
      → Sound (take_back w restoring id m)
  unfolding take_back
  take_back-Sound w true id m v = v
  take_back-Sound w false id m v =
      with_accounts-IsSound relative base (deactivate m.accounts id w.now w.deactivate_written).0 m
        (unfold Calls.step in
          step-Reaches relative m.accounts w.now (Calls.deactivates id w.deactivate_written))
        v

  record_failure-Sound :
      (w : Answers) (restoring : Bool) (id reason : String) (m : Manager)
      → Sound m
      → Sound (record_activation_failure w restoring id reason m)
  unfolding record_activation_failure
  record_failure-Sound w restoring id reason m v =
      take_back-Sound w restoring id (report w id (degraded w.now reason) m)
        (report-Sound w id (degraded w.now reason) m v)

  after_start-Sound :
      (w : Answers) (restoring : Bool) (a : Account) (m : Manager)
      → IsFree a.platform m.running
      → Sound m
      → Sound (after_start w restoring a m).0
  unfolding after_start report with_accounts take_slot log_start
  after_start-Sound w restoring a m free v =
      let status = status_or_degraded w w.status in
      with_accounts-IsSound relative base
        (update_status m.accounts a.id status w.now w.status_written).0
        (take_slot a (log_start a m))
        (unfold Calls.step in
          step-Reaches relative m.accounts w.now (Calls.reports a.id status w.status_written))
        (record { reached = v.reached; slotted = take_slot-IsSlotted a m free v.slotted })

  after_factory-Sound :
      (w : Answers) (restoring : Bool) (a : Account) (m : Manager) (o : Option DriverError)
      → IsFree a.platform m.running
      → Sound m
      → Sound (after_factory w restoring a m o).0
  unfolding after_factory
  after_factory-Sound w restoring a m (some e) free v =
      record_failure-Sound w restoring a.id e.message m v
  after_factory-Sound w restoring a m none free v = after_start-Sound w restoring a m free v

  after_mkdir-Sound :
      (w : Answers) (restoring : Bool) (a : Account) (m : Manager) (o : Option DriverError)
      → IsFree a.platform m.running
      → Sound m
      → Sound (after_mkdir w restoring a m o).0
  unfolding after_mkdir
  after_mkdir-Sound w restoring a m (some e) free v =
      record_failure-Sound w restoring a.id e.message m v
  after_mkdir-Sound w restoring a m none free v =
      after_factory-Sound w restoring a m w.start_error free v

  start_driver-Sound :
      (w : Answers) (restoring : Bool) (a : Account) (m : Manager) (o : Option String)
      → IsFree a.platform m.running
      → Sound m
      → Sound (start_driver w restoring a m o).0
  unfolding start_driver
  start_driver-Sound w restoring a m (some e) free v = record_failure-Sound w restoring a.id e m v
  start_driver-Sound w restoring a m none free v =
      after_mkdir-Sound w restoring a m w.factory_error free v

  activated_entry-Sound :
      (w : Answers) (restoring : Bool) (target : Account) (m : Manager)
      (o : Store × Result Registry.Error (Account × Option Account))
      → Reaches relative m.accounts o.0
      → IsTarget target o.1
      → IsFree target.platform m.running
      → Sound m
      → Sound (activated_entry w restoring m o).0
  unfolding activated_entry
  activated_entry-Sound w restoring target m (s, err e) r t free v =
      with_accounts-IsSound relative base s m r v
  activated_entry-Sound w restoring target m (s, ok (a, previous)) r t free v =
      start_driver-Sound w restoring a (with_accounts s m) w.mkdir_error
        (unfold with_accounts in subst (λ p. IsFree p m.running) (sym t.1) free)
        (with_accounts-IsSound relative base s m r v)

  activate_free-Sound :
      (w : Answers) (restoring : Bool) (target : Account) (m : Manager)
      → In target m.accounts.registry.accounts
      → IsFree target.platform m.running
      → Sound m
      → Sound (activate_free w restoring target m).0
  unfolding activate_free
  activate_free-Sound w restoring target m i free v =
      activated_entry-Sound w restoring target m
        (activate m.accounts target.id w.now w.activate_written)
        (unfold Calls.step in
          step-Reaches relative m.accounts w.now (Calls.activates target.id w.activate_written))
        (activate-IsTarget m.accounts target w.now w.activate_written
          (Reaches-IsWellFormed relative base m.accounts v.reached formed) i)
        free v

  pub keep_stopped-Sound :
      (m : Manager) (platform : String) (r : ActiveRuntime) (s : Stopped)
      → dict_get m.active platform ≡ some r
      → s.runtime.account ≡ r.account
      → Sound m
      → Sound (keep_stopped platform s m)
  keep_stopped-Sound m platform r s slot same v = record {
    reached = unfold keep_stopped in v.reached;
    slotted = keep_stopped-IsSlotted m platform r s slot same v.slotted;
  }

  pub clear_slot-Sound :
      (m : Manager) (platform : String)
      → (m.closed ≡ true) ⊎ IsFree platform m.running
      → Sound m
      → Sound (clear_slot platform m)
  clear_slot-Sound m platform free v = record {
    reached = unfold clear_slot in v.reached;
    slotted = clear_slot-IsSlotted m platform free v.slotted;
  }

  -- After a stop without an error the platform of an open manager is free.
  pub stopped_slot :
      (m : Manager) (platform : String) (r : ActiveRuntime) (s : Stopped)
      → dict_get m.active platform ≡ some r
      → s.runtime.account ≡ r.account
      → s.failure ≡ none
      → Sound m
      → (m.closed ≡ true) ⊎ IsFree platform (keep_stopped platform s m).running
  unfolding keep_stopped still_running running_after
  stopped_slot m platform r s slot same done v = elim (Bool-cases m.closed) [
    | inl c ↦ inl c
    | inr c ↦ inr (rw (done, same) (stopped-IsFree m platform r c slot v.slotted))
  ]

  after_stop-Sound :
      (w : Answers) (restoring : Bool) (target : Account) (m : Manager) (o : Option Error)
      → In target m.accounts.registry.accounts
      → (o ≡ none → (m.closed ≡ true) ⊎ IsFree target.platform m.running)
      → m.closed ≡ false
      → Sound m
      → Sound (after_stop w restoring target m o).0
  unfolding after_stop
  after_stop-Sound w restoring target m (some e) i free c v = v
  after_stop-Sound w restoring target m none i free c v =
      activate_free-Sound w restoring target (clear_slot target.platform m) (unfold clear_slot in i)
        (unfold clear_slot in elim (free refl) [ inl q ↦ absurd (shut (sym q ∙ c)) | inr f ↦ f ])
        (clear_slot-Sound m target.platform (free refl) v)
    where
      shut : true ≡ false → ⊥
      shut q = cc

  switch_account-Sound :
      (w : Answers) (restoring : Bool) (target : Account) (r : ActiveRuntime) (m : Manager)
      → In target m.accounts.registry.accounts
      → dict_get m.active target.platform ≡ some r
      → m.closed ≡ false
      → Sound m
      → Sound (switch_account w restoring target r m).0
  unfolding switch_account keep_stopped
  switch_account-Sound w restoring target r m i slot c v =
      let s = stop_runtime w true r in
      let same = stop_runtime-account w true r in
      after_stop-Sound w restoring target (keep_stopped target.platform s m) s.failure
        (unfold keep_stopped in i) (λ e. stopped_slot m target.platform r s slot same e v)
        (unfold keep_stopped in c) (keep_stopped-Sound m target.platform r s slot same v)

  refresh-Sound :
      (w : Answers) (r : ActiveRuntime) (m : Manager) (o : Result DriverError Status)
      → Sound m
      → Sound (refresh w r m o).0
  unfolding refresh
  refresh-Sound w r m (err e) v = report-Sound w r.account.id (degraded w.now e.message) m v
  refresh-Sound w r m (ok status) v = report-Sound w r.account.id status m v

  with_slot-Sound :
      (w : Answers) (restoring : Bool) (target : Account) (m : Manager) (o : Option ActiveRuntime)
      → dict_get m.active target.platform ≡ o
      → In target m.accounts.registry.accounts
      → m.closed ≡ false
      → Sound m
      → Sound (with_slot w restoring target m o).0
  unfolding with_slot
  with_slot-Sound w restoring target m none e i c v =
      activate_free-Sound w restoring target m i (slot-IsFree m target.platform c e v.slotted) v
  with_slot-Sound w restoring target m (some r) e i c v =
      elim (Bool-cases (r.account.id == target.id)) [
        | inl h ↦ rw h (elim (Bool-cases (not restoring)) [
          | inl k ↦ rw k v
          | inr k ↦ rw k (refresh-Sound w r m w.status v)
        ])
        | inr h ↦ rw h (switch_account-Sound w restoring target r m i e c v)
      ]

  activate_locked-Sound :
      (w : Answers) (restoring : Bool) (m : Manager) (o : Result Registry.Error Account)
      → ((a : Account) → o ≡ ok a → In a m.accounts.registry.accounts)
      → Sound m
      → Sound (activate_locked w restoring m o).0
  unfolding activate_locked
  activate_locked-Sound w restoring m (err e) i v = v
  activate_locked-Sound w restoring m (ok target) i v = elim (Bool-cases target.deleting) [
    | inl d ↦ simp d v
    | inr d ↦ simp d (elim (Bool-cases (restoring && not target.active)) [
      | inl h ↦ rw h v
      | inr h ↦ rw h (elim (Bool-cases m.closed) [
        | inl c ↦ simp c v
        | inr c ↦ simp c (elim (Bool-cases (contains target.platform m.factories)) [
          | inl k ↦ rw k (
              with_slot-Sound w restoring target m (dict_get m.active target.platform) refl
                (i target refl) c v)
          | inr k ↦ rw k v
        ])
      ])
    ])
  ]

  activate_found-Sound :
      (w : Answers) (restoring : Bool) (m : Manager) (o : Result Registry.Error Account)
      → Sound m
      → Sound (activate_found w restoring m o).0
  unfolding activate_found
  activate_found-Sound w restoring m (err e) v = v
  activate_found-Sound w restoring m (ok target) v = elim (Bool-cases target.deleting) [
    | inl d ↦ simp d v
    | inr d ↦ simp d (elim (Bool-cases w.locks) [
      | inl l ↦ simp l (
          activate_locked-Sound w restoring m (resolve m.accounts target.id)
            (λ a e. resolve-In m.accounts target.id a e) v)
      | inr l ↦ simp l v
    ])
  ]

  pub activate_account-Sound :
      (w : Answers) (restoring : Bool) (m : Manager) (value : String)
      → Sound m
      → Sound (activate_account w restoring m value).0
  unfolding activate_account
  activate_account-Sound w restoring m value v =
      activate_found-Sound w restoring m (resolve m.accounts value) v
