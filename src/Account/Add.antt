-- ===== src/Account/Add.antt =====
-- `Add` and `nextAccountIDLocked` of internal/account/store.go.
use wechatcopilot.Prelude.{
  ℕ, zero, suc, String, Bool, true, false, not, ◌&&◌, ◌||◌, Option, none, some, List, [], ◌∷◌, ◌++◌,
  ◌==◌, contains, if◌then◌else◌, Result, ok, err,
}
use wechatcopilot.Driver.{Platform, state_stopped}
use wechatcopilot.Account.Names.{matches_alias, is_id}
use wechatcopilot.Account.Registry.{
  Account, Store, Error, bad_alias, bad_platform, alias_exists, alias_is_id, no_free_id, os_failed,
  known_platform,
}
use wechatcopilot.Account.Update.{Outcome, install}
use wechatcopilot.Account.Deletion.{remove_dir}

-- What the system answers while an account is added: the identifiers that are drawn at random, which
-- `Lstat` calls fail for another reason than a missing file, and which steps succeed.
pub record Chance : Type 0 where
  pub drawn : ℕ → String
  pub lstat_fails : String → Bool
  pub dir_made : Bool
  pub profile_made : Bool
  pub rollback_removed : Bool
  pub written : Bool

-- No entry has `id` for its identifier or its alias.
unfoldable pub is_available : String → List Account → Bool
is_available id [] = true
is_available id (a ∷ rest) = not (a.id == id || a.alias == id) && is_available id rest

-- One round: `none` goes on to the next.
unfoldable pub try_id : Store → Chance → String → String → Option (Result Error String)
try_id s c alias id =
    if not (is_id id) || id == alias
    then none
    else if not (is_available id s.registry.accounts)
    then none
    else if c.lstat_fails id
    then some (err os_failed)
    else if contains id s.account_dirs
    then none
    else some (ok id)

-- `for attempt := 0; attempt < 128; attempt++`, with the rounds that are left.
unfoldable pub next_account_id : ℕ → Store → Chance → String → ℕ → Result Error String
next_account_id zero s c alias attempt = err no_free_id
next_account_id (suc rounds) s c alias attempt = elim (try_id s c alias (c.drawn attempt)) [
  | some r ↦ r
  | none ↦ next_account_id rounds s c alias (suc attempt)
]

-- The loop of `Add` over the entries.
unfoldable pub check_alias : String → List Account → Result Error (Unit {0})
check_alias alias [] = ok tt
check_alias alias (a ∷ rest) =
    if a.alias == alias
    then err alias_exists
    else if a.id == alias
    then err alias_is_id
    else check_alias alias rest

-- `errors.Join(err, os.RemoveAll(accountDir))`: the directory may stay when it cannot be removed.
unfoldable pub roll_back : Bool → String → Store → Store
unfolding remove_dir
roll_back false id s = s
roll_back true id s = record s { account_dirs = remove_dir id s.account_dirs }

unfoldable pub new_account : String → String → Platform → ℕ → Account
new_account id alias platform now = record {
  id = id;
  alias = alias;
  platform = platform;
  active = false;
  state = state_stopped;
  identity = none;
  created_at = now;
  updated_at = now;
  last_error = "";
  client_version = "";
  deleting = false;
}

-- The registry could not be written: the new directory is removed again.
unfoldable pub undo_create : Chance → String → Outcome Account → Outcome Account
unfolding roll_back
undo_create c id (s, ok a) = (s, ok a)
undo_create c id (s, err e) = (roll_back c.rollback_removed id s, err e)

unfoldable pub create : Store → Chance → Account → Outcome Account
unfolding undo_create install
create s c account =
    if not c.dir_made || contains account.id s.account_dirs
    then (s, err os_failed)
    else let s' = record s { account_dirs = account.id ∷ s.account_dirs } in
      if not c.profile_made
      then (roll_back c.rollback_removed account.id s', err os_failed)
      else undo_create c account.id (
          install c.written (record s.registry { accounts = s.registry.accounts ++ account ∷ [] })
            s' account)

unfoldable pub create_named :
    Store → Chance → String → Platform → ℕ → Result Error String → Outcome Account
create_named s c alias platform now (err e) = (s, err e)
create_named s c alias platform now (ok id) = create s c (new_account id alias platform now)

unfoldable pub admit :
    Store → Chance → String → Platform → ℕ → Result Error (Unit {0}) → Outcome Account
admit s c alias platform now (err e) = (s, err e)
admit s c alias platform now (ok _) =
    create_named s c alias platform now (next_account_id 128 s c alias 0)

unfoldable pub add : Store → Chance → String → Platform → ℕ → Outcome Account
unfolding admit
add s c alias platform now =
    if not (matches_alias alias)
    then (s, err bad_alias)
    else if not (known_platform platform)
    then (s, err bad_platform)
    else admit s c alias platform now (check_alias alias s.registry.accounts)
