-- ===== src/Runtime/Sound/Runs.antt =====
-- Restoring, status queries and the shutdown, and the manager's calls one after another.
use wechatcopilot.Prelude.{
  String, Bool, true, false, not, ◌&&◌, Option, none, some, List, [], ◌∷◌, ◌≡◌, refl, sym, subst,
  ◌∙◌, ap, inl, inr, Result, ok, err, All, All-of, Bool-cases, dict_get, Dict,
}
use wechatcopilot.Driver.{Platform, Status, DriverError}
use wechatcopilot.Account.Registry.{Account, Store}
use wechatcopilot.Account.Deletion.{Root}
use wechatcopilot.Account.Keys.{IsWellFormed}
use wechatcopilot.Account.Calls as Calls
use wechatcopilot.Runtime.{ActiveRuntime, Manager, Error, Answers, stop_runtime, still_running}
use wechatcopilot.Runtime.Lifecycle.{activate_account, find_driver}
use wechatcopilot.Runtime.Closing.{
  restore_each, restore, read_status, status_of, account_status, stop_each, shutdown, Call,
  activates, restores, deactivates, begins_delete, reads_status, repairs, shuts_down,
  calls_registry, step, run,
}
use wechatcopilot.Runtime.Sound.{
  HasSlot, OnOtherPlatform, IsSlotted, Reaches-refl, step-Reaches, IsSound, with_accounts-IsSound,
}
use wechatcopilot.Runtime.Sound.Slots.{running_after-Pairs}
use wechatcopilot.Runtime.Sound.Steps.{Sound, report-Sound, activate_account-Sound}
use wechatcopilot.Runtime.Sound.Stops.{
  deactivate_account-Sound, begin_delete_account-Sound, repair-Sound,
}

module _ (relative : Root → String → Option String) (base : Store)
    (formed : IsWellFormed base.registry.accounts) where
  abbrev Kept : Manager → Type 0
  Kept m = Sound relative base formed m

  restore_each-Sound :
      (w : String → Answers) (accounts : List Account) (m : Manager)
      → Kept m
      → Kept (restore_each w accounts m).0
  unfolding restore_each
  restore_each-Sound w [] m v = v
  restore_each-Sound w (a ∷ rest) m v = elim (Bool-cases (a.active && not a.deleting)) [
    | inl h ↦ rw h (
        restore_each-Sound w rest (activate_account (w a.id) true m a.id).0
          (activate_account-Sound relative base formed (w a.id) true m a.id v))
    | inr h ↦ rw h (restore_each-Sound w rest m v)
  ]

  read_status-Sound :
      (w : Answers) (r : ActiveRuntime) (m : Manager) (o : Result DriverError Status)
      → Kept m
      → Kept (read_status w r m o).0
  unfolding read_status
  read_status-Sound w r m (err e) v = v
  read_status-Sound w r m (ok status) v =
      report-Sound relative base formed w r.account.id status m v

  status_of-Sound :
      (w : Answers) (m : Manager) (value : String) (o : Result Error ActiveRuntime)
      → Kept m
      → Kept (status_of w m value o).0
  unfolding status_of
  status_of-Sound w m value (err e) v = v
  status_of-Sound w m value (ok r) v = read_status-Sound w r m w.status v

  -- The stops of a closed manager whose slots are empty.
  stop_each-Sound :
      (w : Platform → Answers) (slots : Dict ActiveRuntime) (m : Manager)
      → m.closed ≡ true
      → m.active ≡ []
      → Kept m
      → Kept (stop_each w slots m).0
  unfolding stop_each still_running
  stop_each-Sound w [] m closed empty v = v
  stop_each-Sound w ((platform, r) ∷ rest) m closed empty v =
      let s = stop_runtime (w platform) false r in
      let n : Manager = record m { running = still_running s m.running } in
      stop_each-Sound w rest n closed empty (record {
        reached = v.reached;
        slotted = record {
          slots = All-of (HasSlot n) n.running (λ d _. unfold HasSlot in inl closed);
          alone =
              running_after-Pairs OnOtherPlatform s.failure s.runtime.account m.running
                v.slotted.alone;
          keyed = v.slotted.keyed;
        };
      })

  shutdown-Sound :
      (locks : Bool) (w : Platform → Answers) (m : Manager) → Kept m → Kept (shutdown locks w m).0
  unfolding shutdown dict_get
  shutdown-Sound false w m v = v
  shutdown-Sound true w m v =
      let n : Manager = record m { closed = true; active = [] } in
      stop_each-Sound w m.active n refl refl (record {
        reached = v.reached;
        slotted = record {
          slots = All-of (HasSlot n) m.running (λ d _. unfold HasSlot in inl refl);
          alone = v.slotted.alone;
          keyed = λ p r h. absurd (no_entry r h);
        };
      })
    where
      no_entry : (r : ActiveRuntime) → none ≡ some r → ⊥
      no_entry r q = cc

  step-Sound :
      (listed : List Account → List Account) (m : Manager) (c : Call)
      → Kept m
      → Kept (step relative listed m c)
  unfolding step restore account_status
  step-Sound listed m (activates w value) v =
      activate_account-Sound relative base formed w false m value v
  step-Sound listed m (restores w) v =
      restore_each-Sound w (listed m.accounts.registry.accounts) m v
  step-Sound listed m (deactivates w value) v =
      deactivate_account-Sound relative base formed w m value v
  step-Sound listed m (begins_delete w value) v =
      begin_delete_account-Sound relative base formed w m value v
  step-Sound listed m (reads_status w value) v = status_of-Sound w m value (find_driver m value) v
  step-Sound listed m (repairs p) v = repair-Sound relative base formed p m v
  step-Sound listed m (shuts_down locks w) v = shutdown-Sound locks w m v
  step-Sound listed m (calls_registry now c) v =
      with_accounts-IsSound relative base (Calls.step relative m.accounts now c) m
        (step-Reaches relative m.accounts now c) v

  run-Sound :
      (listed : List Account → List Account) (m : Manager) (calls : List Call)
      → Kept m
      → Kept (run relative listed m calls)
  unfolding run
  run-Sound listed m [] v = v
  run-Sound listed m (c ∷ rest) v =
      run-Sound listed (step relative listed m c) rest (step-Sound listed m c v)

-- A manager that starts with nothing running and all slots empty.
start-IsSlotted : (m : Manager) → m.running ≡ [] → m.active ≡ [] → IsSlotted m
unfolding dict_get
start-IsSlotted m idle empty = record {
  slots = subst (All (HasSlot m)) (sym idle) tt;
  alone = simp idle tt;
  keyed =
      λ p r h. absurd (no_entry r (sym (ap (λ (x : Dict ActiveRuntime). dict_get x p) empty) ∙ h));
}
  where
    no_entry : (r : ActiveRuntime) → none ≡ some r → ⊥
    no_entry r q = cc

run-IsSound :
    (relative : Root → String → Option String) (listed : List Account → List Account) (m : Manager)
    (calls : List Call)
    → IsWellFormed m.accounts.registry.accounts
    → m.running ≡ []
    → m.active ≡ []
    → IsSound relative m.accounts (run relative listed m calls)
run-IsSound relative listed m calls formed idle empty =
    run-Sound relative m.accounts formed listed m calls (record {
      reached = Reaches-refl relative m.accounts;
      slotted = start-IsSlotted m idle empty;
    })

-- From a manager with nothing running and all slots empty, over a registry that is well-formed, after any calls of the
-- manager and of its registry: no two drivers run on one platform, every driver that runs has the slot of its platform
-- unless the manager is closed, and every slot has an account of its platform.
pub run-IsSlotted :
    (relative : Root → String → Option String) (listed : List Account → List Account) (m : Manager)
    (calls : List Call)
    → IsWellFormed m.accounts.registry.accounts
    → m.running ≡ []
    → m.active ≡ []
    → IsSlotted (run relative listed m calls)
run-IsSlotted relative listed m calls formed idle empty =
    (run-IsSound relative listed m calls formed idle empty).slotted
