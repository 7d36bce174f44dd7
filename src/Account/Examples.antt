-- ===== src/Account/Examples.antt =====
-- Runs of the account registry, and its theorems at a registry of two accounts.
use wechatcopilot.Prelude.{
  ℕ, String, Bool, true, false, Option, none, some, List, [], ◌∷◌, ◌≡◌, refl, ok, here, there,
  arith, contains,
}
use wechatcopilot.Driver.{platform_wechat, state_stopped}
use wechatcopilot.Account.Names.{matches_alias, is_id}
use wechatcopilot.Account.Registry.{
  Account, Registry, Store, readable, open_store, check_entries, check_entry, normalize_entry,
  save_data, open_registry, save_normalized,
}
use wechatcopilot.Account.Update.{resolve, activate}
use wechatcopilot.Account.Deletion.{Root}
use wechatcopilot.Account.Add.{Chance, next_account_id, is_available}
use wechatcopilot.Account.Keys.{IsWellFormed}
use wechatcopilot.Account.Found.{resolve-own}
use wechatcopilot.Account.Fresh.{IsFree, next_account_id-finds}
use wechatcopilot.Account.Opened.{open_store-IsWellFormed}
use wechatcopilot.Account.Invariant.{run-IsWellFormed}
use wechatcopilot.Account.Slots.{HasOneActive, step-HasOneActive, activate-starts}
use wechatcopilot.Account.Durable.{IsAtomic, step-IsAtomic}
use wechatcopilot.Account.Marker.{IsMarked, run-IsMarked}
use wechatcopilot.Account.Calls.{Call, adds, activates, deactivates, step, run}

abbrev entry : String → String → Bool → Bool → Account
entry id alias active deleting = record {
  id = id;
  alias = alias;
  platform = platform_wechat;
  active = active;
  state = state_stopped;
  identity = none;
  created_at = 0;
  updated_at = 0;
  last_error = "";
  client_version = "";
  deleting = deleting;
}

abbrev first_id : String
first_id = "0a1b2c3d-4e5f-4a6b-8c7d-0123456789ab"

abbrev second_id : String
second_id = "1a1b2c3d-4e5f-4a6b-8c7d-0123456789ab"

abbrev third_id : String
third_id = "2a1b2c3d-4e5f-4a6b-8c7d-0123456789ab"

-- The second account is being deleted, though its entry still says that it is active.
abbrev on_disk : Registry
on_disk = record {
  version = 1;
  accounts = entry first_id "work" true false ∷ entry second_id "home" true true ∷ [];
}

abbrev normal : Registry
normal = record {
  version = 1;
  accounts = entry first_id "work" true false ∷ entry second_id "home" false true ∷ [];
}

abbrev opened : Store
opened = record {
  registry = normal;
  saved = some normal;
  account_dirs = first_id ∷ second_id ∷ [];
  runtime_dirs = [];
}

open_normalizes : open_store (readable on_disk) (first_id ∷ second_id ∷ []) [] true ≡ ok opened
unfolding open_store open_registry check_entries check_entry normalize_entry save_normalized
    save_data is_id matches_alias contains
open_normalizes = refl

opened-IsWellFormed : IsWellFormed opened.registry.accounts
opened-IsWellFormed =
    open_store-IsWellFormed (readable on_disk) (first_id ∷ second_id ∷ []) [] true opened
      open_normalizes

abbrev nowhere : Root → String → Option String
nowhere root id = some id

abbrev draws_third : Chance
draws_third = record {
  drawn = λ n. third_id;
  lstat_fails = λ id. false;
  dir_made = true;
  profile_made = true;
  rollback_removed = true;
  written = true;
}

abbrev switching : List (ℕ × Call)
switching =
    (5, adds draws_third "spare" platform_wechat)
    ∷ (6, activates "spare" true)
    ∷ (7, activates second_id true)
    ∷ (8, deactivates first_id false)
    ∷ []

open_store-IsWellFormed_example : IsWellFormed opened.registry.accounts
open_store-IsWellFormed_example =
    open_store-IsWellFormed (readable on_disk) (first_id ∷ second_id ∷ []) [] true opened
      open_normalizes

resolve-own_example :
    (resolve opened second_id ≡ ok (entry second_id "home" false true))
    × (resolve opened "home" ≡ ok (entry second_id "home" false true))
resolve-own_example =
    resolve-own opened (entry second_id "home" false true) opened-IsWellFormed (there here)

run-IsWellFormed_example : IsWellFormed (run nowhere opened switching).registry.accounts
run-IsWellFormed_example = run-IsWellFormed nowhere opened switching opened-IsWellFormed

opened-HasOneActive : HasOneActive opened
opened-HasOneActive = ((λ p q. cc, tt), (tt, tt))

step-HasOneActive_example : HasOneActive (step nowhere opened 6 (activates first_id true))
step-HasOneActive_example =
    step-HasOneActive nowhere opened 6 (activates first_id true) opened-IsWellFormed
      opened-HasOneActive

step-IsAtomic_example : IsAtomic opened (step nowhere opened 6 (activates first_id false))
step-IsAtomic_example = step-IsAtomic nowhere opened 6 (activates first_id false)

run-IsMarked_example : IsMarked second_id (run nowhere opened switching)
run-IsMarked_example =
    run-IsMarked nowhere second_id opened switching (tt, (tt, (tt, (tt, tt)))) opened-IsWellFormed
      (entry second_id "home" false true, there here, refl, refl, refl)

activate-starts_example :
    (activate opened first_id 6 true).0.saved ≡ some (activate opened first_id 6 true).0.registry
activate-starts_example =
    (activate-starts opened (entry first_id "work" true false) 6 opened-IsWellFormed here refl).1

third-IsFree : IsFree opened "spare" third_id
third-IsFree = record {
  form = unfold is_id in refl;
  other = refl;
  available = unfold is_available in refl;
  no_dir = unfold contains in refl;
}

next_account_id-finds_example :
    (id : String) × (next_account_id 128 opened draws_third "spare" 0 ≡ ok id)
next_account_id-finds_example =
    next_account_id-finds 128 opened draws_third "spare" 0 3 (omega arith) third-IsFree (λ id. refl)
