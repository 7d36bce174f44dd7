-- ===== src/Account/Deletion.antt =====
-- Two-phase deletion in internal/account/store.go: the durable marker, the failures recorded under
-- it, and the removal of the account's directories and of its entry.
use wechatcopilot.Prelude.{
  ℕ, String, Bool, true, false, not, Option, none, some, List, [], ◌∷◌, ◌==◌, if◌then◌else◌, Result,
  ok, err, ◌>>=◌, ◌>>◌,
}
use wechatcopilot.Driver.{state_stopped}
use wechatcopilot.Account.Names.{is_id}
use wechatcopilot.Account.Registry.{
  Account, Store, Error, not_exist, not_deleting, still_active, failure_required, bad_id,
  escapes_root, os_failed,
}
use wechatcopilot.Account.Update.{Outcome, install, install_loop, resolve}

unfoldable pub mark_entry : ℕ → Account → Account
mark_entry now a = record a {
  deleting = true;
  active = false;
  state = state_stopped;
  last_error = "";
  updated_at = now;
}

-- The loop of `BeginDelete`, which stops at the first entry of that identifier.
unfoldable pub mark_loop : ℕ → String → List Account → Result Error (List Account × Account)
mark_loop now id [] = err not_exist
mark_loop now id (a ∷ rest) =
    let further = (do found ← mark_loop now id rest; ok (a ∷ found.0, found.1)) in
    if a.id == id then ok (mark_entry now a ∷ rest, mark_entry now a) else further

unfoldable pub mark_account :
    Store → ℕ → Bool → Result Error (List Account × Account) → Outcome Account
unfolding install
mark_account s now written (err e) = (s, err e)
mark_account s now written (ok (entries, account)) =
    install written (record s.registry { accounts = entries }) s account

begin_delete_account : Store → Account → ℕ → Bool → Outcome Account
begin_delete_account s account now written =
    if account.active
    then (s, err still_active)
    else if account.deleting
    then (s, ok account)
    else mark_account s now written (mark_loop now account.id s.registry.accounts)

unfoldable pub begin_delete : Store → String → ℕ → Bool → Outcome Account
unfolding begin_delete_account resolve
begin_delete s value now written = elim (resolve s value) [
  | ok account ↦ begin_delete_account s account now written
  | err e ↦ (s, err e)
]

unfoldable pub failure_entry : String → ℕ → Account → Account
failure_entry failure now a = record a { last_error = failure; updated_at = now }

unfoldable pub failure_loop : ℕ → String → String → List Account → Result Error (List Account)
failure_loop now id failure [] = err not_exist
failure_loop now id failure (a ∷ rest) =
    let further = (do rest' ← failure_loop now id failure rest; ok (a ∷ rest')) in
    if a.id == id
    then (if a.deleting then ok (failure_entry failure now a ∷ rest) else err not_deleting)
    else further

-- `RecordDeleteFailure`; a nil failure is refused.
unfoldable pub record_delete_failure : Store → String → Option String → ℕ → Bool → Outcome Unit
unfolding install_loop
record_delete_failure s id none now written = (s, err failure_required)
record_delete_failure s id (some failure) now written =
    install_loop written s (failure_loop now id failure s.registry.accounts)

-- The directory that holds one directory for each account.
pub data Root : Type 0 where
  accounts_root runtime_root : Root

-- `os.RemoveAll` of an account's directory.
unfoldable pub remove_dir : String → List String → List String
remove_dir id [] = []
remove_dir id (d ∷ ds) = let rest = remove_dir id ds in if d == id then rest else d ∷ rest

unfoldable pub without_account : String → List Account → List Account
without_account id [] = []
without_account id (a ∷ rest) =
    let rest' = without_account id rest in if a.id == id then rest' else a ∷ rest'

-- Which steps of `FinalizeDelete` the system lets succeed.
pub record Removal : Type 0 where
  pub runtime_removed : Bool
  pub state_removed : Bool
  pub written : Bool

-- `relative` is what `filepath.Rel` returns for a root and the joined path below it; `none` is its
-- error.
module _ (relative : Root → String → Option String) where
  same_name : String → Option String → Result Error (Unit {0})
  same_name id none = err escapes_root
  same_name id (some r) = if r == id then ok tt else err escapes_root

  -- `deletionTarget`
  unfoldable pub deletion_target : Root → String → Result Error (Unit {0})
  unfolding same_name
  deletion_target root id = if not (is_id id) then err bad_id else same_name id (relative root id)

  unfoldable pub remove_directories : Store → Account → Removal → Outcome Account
  remove_directories s account r =
      if not r.runtime_removed
      then (s, err os_failed)
      else let s' = record s { runtime_dirs = remove_dir account.id s.runtime_dirs } in
        if not r.state_removed
        then (s', err os_failed)
        else let s'' = record s' { account_dirs = remove_dir account.id s.account_dirs } in
          install r.written
            (record s.registry { accounts = without_account account.id s.registry.accounts }) s''
            account

  -- The removal starts when both targets stand below their roots.
  unfoldable pub within_roots :
      Store → Account → Removal → Result Error (Unit {0}) → Outcome Account
  within_roots s account r (err e) = (s, err e)
  within_roots s account r (ok _) = remove_directories s account r

  unfoldable pub finalize_account : Store → Account → Removal → Outcome Account
  finalize_account s account r =
      if not account.deleting
      then (s, err not_deleting)
      else within_roots s account r
          (do deletion_target accounts_root account.id; deletion_target runtime_root account.id)

  unfoldable pub finalize_delete : Store → String → Removal → Outcome Account
  unfolding finalize_account
  finalize_delete s value r = elim (resolve s value) [
    | ok account ↦ finalize_account s account r
    | err e ↦ (s, err e)
  ]
