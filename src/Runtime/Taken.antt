-- ===== src/Runtime/Taken.antt =====
-- What an explicit activation that succeeds has done to the slots and to the drivers.
use wechatcopilot.Prelude.{
  String, true, false, Option, none, some, contains, ◌≡◌, ◌≢◌, refl, sym, ap, subst, ◌∙◌, ◌⊎◌, inl,
  inr, Result, ok, err, In, here, dict_get, dict_put, dict_get-put_own, dict_get-put_other,
  dict_get-remove_other, Bool-cases, text_cases,
}
use wechatcopilot.Driver.{Platform, DriverError}
use wechatcopilot.Account.Registry.{Account, Store}
use wechatcopilot.Account.Registry as Registry
use wechatcopilot.Account.Update.{resolve, activate}
use wechatcopilot.Account.Keys.{IsWellFormed}
use wechatcopilot.Account.Found.{find_account-In, resolve-own}
use wechatcopilot.Account.Preserved.{IsTarget, activate-IsTarget}
use wechatcopilot.Runtime.{
  ActiveRuntime, Manager, Error, Answers, Stopped, start_ingest, stop_runtime, keep_stopped,
  clear_slot,
}
use wechatcopilot.Runtime.Lifecycle.{
  Outcome, started_answer, with_accounts, resolved, report, status_or_degraded, take_slot,
  log_start, after_start, after_factory, after_mkdir, start_driver, activated_entry, activate_free,
  after_stop, switch_account, with_slot, activate_locked, activate_found, activate_account,
}

-- The slots of all other platforms are as they were.
abbrev SameElsewhere : Platform → Manager → Manager → Type 0
SameElsewhere platform m n =
    (p : Platform) → platform ≢ p → dict_get n.active p ≡ dict_get m.active p

-- The slot of the platform has the account, whose driver runs if it had not the slot before.
pub record HasTaken (target : Account) (m n : Manager) : Type 0 where
  pub slot : ActiveRuntime
  pub taken : dict_get n.active target.platform ≡ some slot
  pub own : slot.account.id ≡ target.id
  pub driver :
      (n ≡ m) ⊎ In (record { platform = target.platform; account_id = target.id }) n.running
  pub elsewhere : SameElsewhere target.platform m n

abbrev Takes : Account → Manager → Outcome Account → Type 0
Takes target m (n, ok a) = HasTaken target m n
Takes target m (n, err e) = Unit

-- A runtime that has just started.
abbrev Started : Account → Manager → Manager → Type 0
Started a m n =
    (slot : ActiveRuntime) × (dict_get n.active a.platform ≡ some slot)
    × (slot.account.id ≡ a.id)
    × In (record { platform = a.platform; account_id = a.id }) n.running
    × SameElsewhere a.platform m n

abbrev Starts : Account → Manager → Outcome Account → Type 0
Starts a m (n, ok x) = Started a m n
Starts a m (n, err e) = Unit

answer-Starts :
    (a : Account) (m n : Manager) (o : Result Error Account) → Started a m n → Starts a m (n, o)
answer-Starts a m n (ok x) h = h
answer-Starts a m n (err e) h = tt

after_start-Starts :
    (w : Answers) (a : Account) (m : Manager) → Starts a m (after_start w false a m)
unfolding after_start take_slot report log_start with_accounts start_ingest
after_start-Starts w a m =
    let n = take_slot a (report w a.id (status_or_degraded w w.status) (log_start a m)) in
    let r : ActiveRuntime =
      start_ingest
        (record { account = a; serial = m.made; loops = 0; ingesting = false; stopping = false }) in
    answer-Starts a m n (started_answer false w.status (resolved n a.id)) (
      r,
      dict_get-put_own m.active a.platform r,
      refl,
      here,
      λ p d. dict_get-put_other m.active a.platform p r d,
    )

after_factory-Starts :
    (w : Answers) (a : Account) (m : Manager) (o : Option DriverError)
    → Starts a m (after_factory w false a m o)
unfolding after_factory
after_factory-Starts w a m (some e) = tt
after_factory-Starts w a m none = after_start-Starts w a m

after_mkdir-Starts :
    (w : Answers) (a : Account) (m : Manager) (o : Option DriverError)
    → Starts a m (after_mkdir w false a m o)
unfolding after_mkdir
after_mkdir-Starts w a m (some e) = tt
after_mkdir-Starts w a m none = after_factory-Starts w a m w.start_error

start_driver-Starts :
    (w : Answers) (a : Account) (m : Manager) (o : Option String)
    → Starts a m (start_driver w false a m o)
unfolding start_driver
start_driver-Starts w a m (some e) = tt
start_driver-Starts w a m none = after_mkdir-Starts w a m w.factory_error

-- What has started for the entry has started for the account.
Starts-Takes :
    (target a : Account) (m n : Manager) (o : Outcome Account)
    → a.id ≡ target.id
    → a.platform ≡ target.platform
    → SameElsewhere target.platform m n
    → Starts a n o
    → Takes target m o
Starts-Takes target a m n (l, err e) same_id same_platform same h = tt
Starts-Takes target a m n (l, ok x) same_id same_platform same (slot, taken, own, runs, rest) =
    record {
      slot = slot;
      taken = ap (dict_get l.active) (sym same_platform) ∙ taken;
      own = own ∙ same_id;
      driver = inr (rw (sym same_id, sym same_platform) runs);
      elsewhere = λ p d. rest p (λ e. d (sym same_platform ∙ e)) ∙ same p d;
    }

activated_entry-Takes :
    (w : Answers) (target : Account) (m n : Manager)
    (o : Store × Result Registry.Error (Account × Option Account))
    → IsTarget target o.1
    → SameElsewhere target.platform m n
    → Takes target m (activated_entry w false n o)
unfolding activated_entry with_accounts
activated_entry-Takes w target m n (s, err e) t same = tt
activated_entry-Takes w target m n (s, ok (a, previous)) t same =
    let n' : Manager = record n { accounts = s } in
    Starts-Takes target a m n' (start_driver w false a n' w.mkdir_error) t.0 t.1 same
      (start_driver-Starts w a n' w.mkdir_error)

activate_free-Takes :
    (w : Answers) (target : Account) (m n : Manager)
    → IsWellFormed n.accounts.registry.accounts
    → In target n.accounts.registry.accounts
    → SameElsewhere target.platform m n
    → Takes target m (activate_free w false target n)
unfolding activate_free
activate_free-Takes w target m n formed i same =
    activated_entry-Takes w target m n (activate n.accounts target.id w.now w.activate_written)
      (activate-IsTarget n.accounts target w.now w.activate_written formed i) same

after_stop-Takes :
    (w : Answers) (target : Account) (m : Manager) (s : Stopped) (o : Option Error)
    → IsWellFormed m.accounts.registry.accounts
    → In target m.accounts.registry.accounts
    → Takes target m (after_stop w false target (keep_stopped target.platform s m) o)
unfolding after_stop keep_stopped clear_slot
after_stop-Takes w target m s (some e) formed i = tt
after_stop-Takes w target m s none formed i =
    activate_free-Takes w target m (clear_slot target.platform (keep_stopped target.platform s m))
      formed i
      (λ p d.
        dict_get-remove_other (dict_put m.active target.platform s.runtime) target.platform p d
        ∙ dict_get-put_other m.active target.platform p s.runtime d)

with_slot-Takes :
    (w : Answers) (target : Account) (m : Manager) (o : Option ActiveRuntime)
    → dict_get m.active target.platform ≡ o
    → IsWellFormed m.accounts.registry.accounts
    → In target m.accounts.registry.accounts
    → Takes target m (with_slot w false target m o)
unfolding with_slot switch_account
with_slot-Takes w target m none e formed i = activate_free-Takes w target m m formed i (λ p d. refl)
with_slot-Takes w target m (some r) e formed i = elim (text_cases r.account.id target.id) [
  | inl (b, same) ↦
      rw b (record { slot = r; taken = e; own = same; driver = inl refl; elsewhere = λ p d. refl })
  | inr (b, n) ↦
      let s = stop_runtime w true r in rw b (after_stop-Takes w target m s s.failure formed i)
]

activate_locked-Takes :
    (w : Answers) (target : Account) (m : Manager)
    → IsWellFormed m.accounts.registry.accounts
    → In target m.accounts.registry.accounts
    → Takes target m (activate_locked w false m (ok target))
unfolding activate_locked
activate_locked-Takes w target m formed i = elim (Bool-cases target.deleting) [
  | inl h ↦ simp h tt
  | inr h ↦ elim (Bool-cases m.closed) [
    | inl c ↦ simp (h, c) tt
    | inr c ↦ elim (Bool-cases (contains target.platform m.factories)) [
      | inr k ↦ simp (h, c, k) tt
      | inl k ↦
          simp (h, c, k)
            (with_slot-Takes w target m (dict_get m.active target.platform) refl formed i)
    ]
  ]
]

activate_found-Takes :
    (w : Answers) (target : Account) (m : Manager)
    → IsWellFormed m.accounts.registry.accounts
    → In target m.accounts.registry.accounts
    → Takes target m (activate_found w false m (ok target))
unfolding activate_found
activate_found-Takes w target m formed i = elim (Bool-cases target.deleting) [
  | inl h ↦ simp h tt
  | inr h ↦ elim (Bool-cases w.locks) [
    | inr l ↦ simp (h, l) tt
    | inl l ↦
        simp (h, l)
          (rw (resolve-own m.accounts target formed i).0
            (activate_locked-Takes w target m formed i))
  ]
]

-- An explicit activation over a well-formed registry that answers without an error: the slot of the platform of the
-- account that the value names has a runtime of that account, a driver of the account runs or nothing has changed at
-- all, and the slots of all other platforms are as they were.
pub activate_account-HasTaken :
    (w : Answers) (m n : Manager) (value : String) (target answer : Account)
    → IsWellFormed m.accounts.registry.accounts
    → resolve m.accounts value ≡ ok target
    → activate_account w false m value ≡ (n, ok answer)
    → HasTaken target m n
unfolding activate_account resolve
activate_account-HasTaken w m n value target answer formed found h =
    let i = find_account-In value m.accounts.registry.accounts target found in
    subst (Takes target m) h (rw found (activate_found-Takes w target m formed i))
