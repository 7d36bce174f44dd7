-- ===== src/Control/Examples.antt =====
-- A removal, and the theorem at it.
use wechatcopilot.Prelude.{
  String, Bool, true, false, Option, none, some, [], ◌∷◌, ◌≡◌, refl, ok, contains,
}
use wechatcopilot.Driver.{platform_wechat, state_stopped, state_online}
use wechatcopilot.Account.Registry.{
  Account, Registry, readable, open_store, check_entries, check_entry, normalize_entry, save_data,
  open_registry, save_normalized,
}
use wechatcopilot.Account.Names.{matches_alias, is_id}
use wechatcopilot.Account.Keys.{IsWellFormed}
use wechatcopilot.Account.Opened.{open_store-IsWellFormed}
use wechatcopilot.Account.Update.{resolve, install}
use wechatcopilot.Account.Deletion.{
  Root, begin_delete, mark_account, mark_loop, mark_entry, finalize_delete, finalize_account,
  within_roots, remove_directories, deletion_target, remove_dir, without_account,
}
use wechatcopilot.Runtime.{Manager, Error}
use wechatcopilot.Runtime.Lifecycle.{
  with_accounts, begun_delete, begin_delete_locked, begin_delete_found, begin_delete_account,
}
use wechatcopilot.Runtime.Closing.{purge}
use wechatcopilot.Control.{Removing, finalize_answer, after_purge, removal_begun, remove_account}
use wechatcopilot.Control.Gone.{IsRemoved, remove_account-IsRemoved}

abbrev work : Account
work = record {
  id = "0a1b2c3d-4e5f-4a6b-8c7d-0123456789ab";
  alias = "work";
  platform = platform_wechat;
  active = false;
  state = state_stopped;
  identity = none;
  created_at = 0;
  updated_at = 0;
  last_error = "";
  client_version = "";
  deleting = false;
}

abbrev one : Registry
one = record { version = 1; accounts = work ∷ [] }

abbrev idle : Manager
idle = record {
  accounts = record {
    registry = one;
    saved = some one;
    account_dirs = work.id ∷ [];
    runtime_dirs = work.id ∷ [];
  };
  factories = platform_wechat ∷ [];
  active = [];
  closed = false;
  made = 0;
  repairs = [];
  running = [];
}

one_opens : open_store (readable one) (work.id ∷ []) (work.id ∷ []) true ≡ ok idle.accounts
unfolding open_store open_registry check_entries check_entry normalize_entry save_normalized
    save_data is_id matches_alias contains
one_opens = refl

idle-IsWellFormed : IsWellFormed idle.accounts.registry.accounts
idle-IsWellFormed =
    open_store-IsWellFormed (readable one) (work.id ∷ []) (work.id ∷ []) true idle.accounts
      one_opens

abbrev missing : Error → Bool
missing e = false

abbrev text : Error → String
text e = "failed"

abbrev nowhere : Root → String → Option String
nowhere root id = some id

abbrev removing : Removing missing text
removing = record {
  answers = record {
    now = 5;
    locks = true;
    drains = true;
    syncs_end = true;
    stop_error = none;
    mkdir_error = none;
    factory_error = none;
    start_error = none;
    status = ok (record {
      state = state_online;
      identity = none;
      reason = "";
      client_version = "";
      observed_at = 5;
    });
    activate_written = true;
    status_written = true;
    deactivate_written = true;
  };
  purging = record { purges = true; purge_error = none };
  removal = record { runtime_removed = true; state_removed = true; written = true };
  failure_written = true;
}

abbrev gone_work : Account
gone_work = record work { deleting = true; updated_at = 5 }

abbrev empty : Registry
empty = record { version = 1; accounts = [] }

abbrev after : Manager
after = record idle {
  accounts = record { registry = empty; saved = some empty; account_dirs = []; runtime_dirs = [] };
}

removes_work :
    remove_account missing text nowhere removing idle work.id true true ≡ (after, ok gone_work)
unfolding remove_account removal_begun after_purge finalize_answer begin_delete_account
    begin_delete_found begin_delete_locked begun_delete with_accounts begin_delete mark_account
    mark_loop mark_entry finalize_delete finalize_account within_roots remove_directories
    deletion_target remove_dir without_account install save_data resolve is_id purge contains
removes_work = refl

remove_account-IsRemoved_example :
    (◌≡◌ {A = Bool} true true)
    × (◌≡◌ {A = Bool} true true)
    × IsRemoved missing text nowhere removing idle work.id after gone_work
remove_account-IsRemoved_example =
    remove_account-IsRemoved missing text nowhere removing idle after work.id true true gone_work
      idle-IsWellFormed removes_work
