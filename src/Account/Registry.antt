-- ===== src/Account/Registry.antt =====
-- The registry's data, its file and its directories, and `Open`, of internal/account/store.go.
use wechatcopilot.Prelude.{
  ℕ, String, Bool, true, false, not, ◌&&◌, ◌||◌, Option, none, some, List, [], ◌∷◌, ◌==◌, nat_beq,
  contains, if◌then◌else◌, Result, ok, err, ◌>>=◌,
}
use wechatcopilot.Driver.{
  Platform, RuntimeState, Identity, platform_wechat, platform_wecom, state_stopped,
}
use wechatcopilot.Account.Names.{matches_alias, is_id}

pub record Account : Type 0 where
  pub id : String
  pub alias : String
  pub platform : Platform
  pub active : Bool
  pub state : RuntimeState
  pub identity : Option Identity
  pub created_at : ℕ
  pub updated_at : ℕ
  pub last_error : String
  pub client_version : String
  pub deleting : Bool

pub record Registry : Type 0 where
  pub version : ℕ
  pub accounts : List Account

-- `saved` is the content of the registry file; the two lists name the accounts that have a
-- directory under `paths.Accounts` and under `paths.Runtime/accounts`.
pub record Store : Type 0 where
  pub registry : Registry
  pub saved : Option Registry
  pub account_dirs : List String
  pub runtime_dirs : List String

pub data Error : Type 0 where
  bad_alias bad_platform alias_exists alias_is_id no_free_id not_exist is_deleting : Error
  not_deleting still_active failure_required escapes_root bad_id : Error
  version_unsupported duplicate_id duplicate_alias id_is_alias id_conflicts alias_conflicts : Error
  bad_file undecodable : Error
  os_failed : Error

-- `AtomicWrite` renames a complete file over the registry, or leaves the old one.
unfoldable pub save_data : Bool → Registry → Store → Result Error Store
save_data true next s = ok (record s { saved = some next })
save_data false next s = err os_failed

abbrev pub known_platform : Platform → Bool
known_platform p = p == platform_wechat || p == platform_wecom

-- The checks of one entry against the identifiers and the aliases of those before it.
unfoldable pub check_entry : List String → List String → Account → Result Error (Unit {0})
check_entry ids aliases item =
    if not (is_id item.id)
    then err bad_id
    else if not (matches_alias item.alias)
    then err bad_alias
    else if not (known_platform item.platform)
    then err bad_platform
    else if item.id == item.alias
    then err id_is_alias
    else if contains item.id ids
    then err duplicate_id
    else if contains item.alias aliases
    then err duplicate_alias
    else if contains item.id aliases
    then err id_conflicts
    else if contains item.alias ids
    then err alias_conflicts
    else ok tt

-- A deleting entry is made inactive and stopped; the flag says whether that changed it.
unfoldable pub normalize_entry : Account → Account × Bool
normalize_entry item =
    if item.deleting && (item.active || not (item.state == state_stopped))
    then (record item { active = false; state = state_stopped }, true)
    else (item, false)

-- The loop of `Open`: the entries as they are kept, and whether one was normalized.
unfoldable pub check_entries :
    List String → List String → List Account → Result Error (List Account × Bool)
check_entries ids aliases [] = ok ([], false)
check_entries ids aliases (item ∷ items) = do
  checked ← check_entry ids aliases item
  rest ← check_entries (item.id ∷ ids) (item.alias ∷ aliases) items
  ok ((normalize_entry item).0 ∷ rest.0, (normalize_entry item).1 || rest.1)

-- What `Lstat` and `ReadFile` find at the path of the registry.
pub data RegistryFile : Type 0 where
  missing : RegistryFile
  stat_failed irregular exposed unreadable garbled : RegistryFile
  readable : Registry → RegistryFile

abbrev pub empty_registry : Registry
empty_registry = record { version = 1; accounts = [] }

unfoldable pub save_normalized : Bool → Bool → Store → Result Error Store
save_normalized false written s = ok s
save_normalized true written s = save_data written s.registry s

unfoldable pub open_registry : Registry → List String → List String → Bool → Result Error Store
open_registry r account_dirs runtime_dirs written =
    if not (nat_beq r.version 1) then err version_unsupported else (do
      kept ← check_entries [] [] r.accounts
      save_normalized kept.1 written (record {
        registry = record r { accounts = kept.0 };
        saved = some r;
        account_dirs = account_dirs;
        runtime_dirs = runtime_dirs;
      }))

-- `Open`, after `paths.Ensure`; `written` says whether a write of the registry file succeeds.
unfoldable pub open_store : RegistryFile → List String → List String → Bool → Result Error Store
open_store missing account_dirs runtime_dirs written = ok (record {
  registry = empty_registry;
  saved = none;
  account_dirs = account_dirs;
  runtime_dirs = runtime_dirs;
})
open_store stat_failed account_dirs runtime_dirs written = err os_failed
open_store irregular account_dirs runtime_dirs written = err bad_file
open_store exposed account_dirs runtime_dirs written = err bad_file
open_store unreadable account_dirs runtime_dirs written = err os_failed
open_store garbled account_dirs runtime_dirs written = err undecodable
open_store (readable r) account_dirs runtime_dirs written =
    open_registry r account_dirs runtime_dirs written
