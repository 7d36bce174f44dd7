-- ===== src/Account/Update.antt =====
-- The loops over the accounts of a copied registry in internal/account/store.go, and the calls
-- built on them. Every call takes the time, and whether the write of the registry file succeeds.
use wechatcopilot.Prelude.{
  ℕ, String, Bool, true, false, not, ◌&&◌, ◌||◌, Option, none, some, List, [], ◌∷◌, ◌==◌,
  if◌then◌else◌, Result, ok, err, ◌>>=◌,
}
use wechatcopilot.Driver.{Status, state_stopped, state_starting}
use wechatcopilot.Account.Registry.{
  Account, Registry, Store, Error, not_exist, is_deleting, save_data,
}

-- What a call leaves behind, and what it returns.
abbrev pub Outcome : Type 0 → Type 0
Outcome A = Store × Result Error A

-- The tail of most calls: save `next`, and only then install it.
unfoldable pub install : {A : Type 0} → Bool → Registry → Store → A → Outcome A
unfolding save_data
install written next s a = elim (save_data written next s) [
  | ok s' ↦ (record s' { registry = next }, ok a)
  | err e ↦ (s, err e)
]

unfoldable pub find_account : String → List Account → Result Error Account
find_account value [] = err not_exist
find_account value (a ∷ rest) =
    if a.id == value || a.alias == value then ok a else find_account value rest

-- `resolveLocked`
unfoldable pub resolve : Store → String → Result Error Account
unfolding find_account
resolve s value = find_account value s.registry.accounts

unfoldable pub stop_entry : ℕ → Account → Account
stop_entry now a = record a { active = false; state = state_stopped; updated_at = now }

unfoldable pub start_entry : ℕ → Account → Account
start_entry now a = record a { active = true; state = state_starting; updated_at = now }

-- `next.Accounts[i]` is another active account on the platform of the target.
unfoldable pub is_rival : Account → Account → Bool
is_rival target a = a.platform == target.platform && a.active && not (a.id == target.id)

unfoldable pub halt_rival : ℕ → Account → Account → Account
unfolding stop_entry is_rival
halt_rival now target a = if is_rival target a then stop_entry now a else a

unfoldable pub start_target : ℕ → Account → Account → Account
unfolding start_entry
start_target now target a = if a.id == target.id then start_entry now a else a

-- `target = cloneAccount(next.Accounts[i])` where the entry is the target's.
unfoldable pub next_target : ℕ → Account → Account → Account
next_target now target a =
    let a' = halt_rival now target a in
    if a'.id == target.id then start_target now target a' else target

-- The loop of `Activate`: the new entries, the target, and the account that was active before.
unfoldable pub activate_loop :
    ℕ → List Account → Account → Option Account → List Account × Account × Option Account
activate_loop now [] target previous = ([], target, previous)
activate_loop now (a ∷ rest) target previous =
    let previous' = if is_rival target a then some a else previous in
    let (rest', last, prior) = activate_loop now rest (next_target now target a) previous' in
    (start_target now target (halt_rival now target a) ∷ rest', last, prior)

activate_target : Store → Account → ℕ → Bool → Outcome (Account × Option Account)
unfolding install
activate_target s target now written =
    if target.deleting
    then (s, err is_deleting)
    else let (entries, last, prior) = activate_loop now s.registry.accounts target none in
      install written (record s.registry { accounts = entries }) s (last, prior)

unfoldable pub activate : Store → String → ℕ → Bool → Outcome (Account × Option Account)
unfolding activate_target resolve
activate s value now written = elim (resolve s value) [
  | ok target ↦ activate_target s target now written
  | err e ↦ (s, err e)
]

-- The loop of `Deactivate`: the new entries, and the entry that it stopped last.
unfoldable pub deactivate_loop : ℕ → String → List Account → Account → List Account × Account
deactivate_loop now id [] account = ([], account)
deactivate_loop now id (a ∷ rest) account =
    let hit = a.id == id in
    let a' = if hit then stop_entry now a else a in
    let account' = if hit then a' else account in
    let (rest', last) = deactivate_loop now id rest account' in (a' ∷ rest', last)

deactivate_account : Store → Account → ℕ → Bool → Outcome Account
unfolding install
deactivate_account s account now written =
    if account.deleting
    then (s, err is_deleting)
    else let (entries, last) = deactivate_loop now account.id s.registry.accounts account in
      install written (record s.registry { accounts = entries }) s last

unfoldable pub deactivate : Store → String → ℕ → Bool → Outcome Account
unfolding deactivate_account resolve
deactivate s value now written = elim (resolve s value) [
  | ok account ↦ deactivate_account s account now written
  | err e ↦ (s, err e)
]

unfoldable pub set_status : Status → ℕ → Account → Account
set_status status now a = record a {
  state = status.state;
  identity = status.identity;
  last_error = status.reason;
  client_version = status.client_version;
  updated_at = now;
}

-- The loop of `UpdateStatus`, which stops at the first entry of that identifier.
unfoldable pub status_loop : ℕ → String → Status → List Account → Result Error (List Account)
status_loop now id status [] = err not_exist
status_loop now id status (a ∷ rest) =
    let further = (do rest' ← status_loop now id status rest; ok (a ∷ rest')) in
    if a.id == id
    then (if a.deleting then err is_deleting else ok (set_status status now a ∷ rest))
    else further

-- Save and install what a loop returns, or report its error.
unfoldable pub install_loop : Bool → Store → Result Error (List Account) → Outcome Unit
unfolding install
install_loop written s (err e) = (s, err e)
install_loop written s (ok entries) =
    install written (record s.registry { accounts = entries }) s tt

unfoldable pub update_status : Store → String → Status → ℕ → Bool → Outcome Unit
unfolding install_loop
update_status s id status now written =
    install_loop written s (status_loop now id status s.registry.accounts)
