-- ===== src/Runtime/Examples.antt =====
-- Runs of the runtime manager, and its theorems at a registry of two accounts of one platform.
use wechatcopilot.Prelude.{
  String, true, false, Option, none, some, List, [], ◌∷◌, ◌≡◌, refl, ok, err, here, dict_get,
  dict_put, dict_remove, contains,
}
use wechatcopilot.Driver.{platform_wechat, state_stopped, state_online, Status, DriverError}
use wechatcopilot.Account.Registry.{
  Account, Registry, Store, readable, open_store, check_entries, check_entry, normalize_entry,
  save_data, open_registry, save_normalized,
}
use wechatcopilot.Account.Names.{matches_alias, is_id}
use wechatcopilot.Account.Update.{
  resolve, activate, update_status, status_loop, activate_loop, start_target, halt_rival,
  next_target, set_status,
}
use wechatcopilot.Account.Deletion.{Root}
use wechatcopilot.Account.Keys.{IsWellFormed}
use wechatcopilot.Account.Opened.{open_store-IsWellFormed}
use wechatcopilot.Runtime.{
  Manager, Running, Answers, driver_failed, keep_stopped, clear_slot, stop_runtime, still_running,
}
use wechatcopilot.Runtime.Lifecycle.{
  activate_account, activate_found, activate_locked, with_slot, activate_free, activated_entry,
  start_driver, after_mkdir, after_factory, after_start, take_slot, log_start, report, resolved,
  started_answer, looked_up, status_or_degraded, with_accounts, switch_account, after_stop, refresh,
  record_activation_failure,
}
use wechatcopilot.Runtime.Closing.{Call, activates, restores, restore, restore_each, step, run}
use wechatcopilot.Runtime.Sound.{IsSlotted}
use wechatcopilot.Runtime.Sound.Runs.{run-IsSlotted}
use wechatcopilot.Runtime.Taken.{HasTaken, activate_account-HasTaken}
use wechatcopilot.Runtime.Rollback.{IsRolledBack, activate_account-IsRolledBack}

abbrev entry : String → String → Account
entry id alias = record {
  id = id;
  alias = alias;
  platform = platform_wechat;
  active = false;
  state = state_stopped;
  identity = none;
  created_at = 0;
  updated_at = 0;
  last_error = "";
  client_version = "";
  deleting = false;
}

abbrev work : Account
work = entry "0a1b2c3d-4e5f-4a6b-8c7d-0123456789ab" "work"

abbrev home : Account
home = entry "1a1b2c3d-4e5f-4a6b-8c7d-0123456789ab" "home"

abbrev two : Registry
two = record { version = 1; accounts = work ∷ home ∷ [] }

abbrev opened : Store
opened = record { registry = two; saved = some two; account_dirs = []; runtime_dirs = [] }

two_opens : open_store (readable two) [] [] true ≡ ok opened
unfolding open_store open_registry check_entries check_entry normalize_entry save_normalized
    save_data is_id matches_alias contains
two_opens = refl

opened-IsWellFormed : IsWellFormed opened.registry.accounts
opened-IsWellFormed = open_store-IsWellFormed (readable two) [] [] true opened two_opens

abbrev idle : Manager
idle = record {
  accounts = opened;
  factories = platform_wechat ∷ [];
  active = [];
  closed = false;
  made = 0;
  repairs = [];
  running = [];
}

abbrev ready : Status
ready = record {
  state = state_online;
  identity = none;
  reason = "";
  client_version = "";
  observed_at = 5;
}

abbrev refusal : DriverError
refusal = record { message = "stuck"; failure = none; consumed = false }

abbrev answers : Answers
answers = record {
  now = 5;
  locks = true;
  drains = true;
  syncs_end = true;
  stop_error = none;
  mkdir_error = none;
  factory_error = none;
  start_error = none;
  status = ok ready;
  activate_written = true;
  status_written = true;
  deactivate_written = true;
}

abbrev stuck : Answers
stuck = record answers { stop_error = some refusal }

abbrev refused : Answers
refused = record answers { start_error = some refusal }

abbrev nowhere : Root → String → Option String
nowhere root id = some id

abbrev as_listed : List Account → List Account
as_listed xs = xs

-- The work account starts, cannot be stopped for the other, is stopped for it, and the manager shuts down.
abbrev switches : List Call
switches =
    activates answers "work"
    ∷ activates stuck "home"
    ∷ activates answers "home"
    ∷ restores (λ _. answers)
    ∷ []

abbrev after_switches : List Running
after_switches = record { platform = platform_wechat; account_id = home.id } ∷ []

switches-run : (run nowhere as_listed idle switches).running ≡ after_switches
unfolding run step restore restore_each activate_account activate_found resolve activate_locked
    contains with_slot dict_get activate_free activated_entry activate start_driver after_mkdir
    after_factory after_start take_slot log_start report resolved with_accounts update_status
    dict_put dict_remove switch_account after_stop keep_stopped clear_slot stop_runtime
    still_running refresh record_activation_failure status_loop activate_loop start_target
    halt_rival next_target set_status
switches-run = refl

run-IsSlotted_example : IsSlotted (run nowhere as_listed idle switches)
run-IsSlotted_example = run-IsSlotted nowhere as_listed idle switches opened-IsWellFormed refl refl

abbrev online_work : Account
online_work = record work { active = true; state = state_online; updated_at = 5 }

abbrev with_work : Manager
with_work = (activate_account answers false idle "work").0

work-starts : activate_account answers false idle "work" ≡ (with_work, ok online_work)
unfolding activate_account activate_found resolve activate_locked contains with_slot dict_get
    activate_free activated_entry activate start_driver after_mkdir after_factory after_start
    take_slot log_start report resolved with_accounts update_status dict_put dict_remove status_loop
    activate_loop start_target halt_rival next_target set_status started_answer looked_up
    status_or_degraded
work-starts = refl

work_found : resolve idle.accounts "work" ≡ ok work
unfolding resolve
work_found = refl

activate_account-HasTaken_example : HasTaken work idle with_work
activate_account-HasTaken_example =
    activate_account-HasTaken answers idle with_work "work" work online_work opened-IsWellFormed
      work_found work-starts

refused_start : (activate_account refused false idle work.id).1 ≡ err (driver_failed refusal)
unfolding activate_account activate_found resolve activate_locked contains with_slot dict_get
    activate_free activated_entry activate start_driver after_mkdir after_factory
refused_start = refl

empty_slot : dict_get idle.active work.platform ≡ none
unfolding dict_get
empty_slot = refl

activate_account-IsRolledBack_example :
    IsRolledBack work.id idle (activate_account refused false idle work.id).0
activate_account-IsRolledBack_example =
    activate_account-IsRolledBack refused idle work refusal opened-IsWellFormed here empty_slot refl
      refused_start
