-- ===== src/Runtime/Sound.antt =====
-- What holds of the manager at all times: its registry has a history of calls, and every driver that
-- runs has the slot of its platform, unless the manager is closed.
pub mod Slots
pub mod Steps
pub mod Stops
pub mod Runs
use wechatcopilot.Prelude.{
  ℕ, String, Bool, true, false, Option, none, some, List, [], ◌∷◌, ◌++◌, ◌≡◌, ◌≢◌, refl, sym, ap,
  subst, ◌∙◌, ◌⊎◌, inl, inr, All, Pairs, dict_get,
}
use wechatcopilot.Account.Registry.{Account, Store}
use wechatcopilot.Account.Deletion.{Root}
use wechatcopilot.Account.Keys.{IsWellFormed}
use wechatcopilot.Account.Calls as Calls
use wechatcopilot.Account.Invariant.{run-IsWellFormed}
use wechatcopilot.Runtime.{ActiveRuntime, Manager, Running}
use wechatcopilot.Runtime.Lifecycle.{with_accounts}

pub HasSlot : Manager → Running → Type 0
HasSlot m d =
    (m.closed ≡ true)
    ⊎ ((r : ActiveRuntime) × (dict_get m.active d.platform ≡ some r)
        × (r.account.id ≡ d.account_id))

abbrev pub OnOtherPlatform : Running → Running → Type 0
OnOtherPlatform a b = a.platform ≢ b.platform

-- What runs, and the slots.
pub record IsSlotted (m : Manager) : Type 0 where
  pub slots : All (HasSlot m) m.running
  pub alone : Pairs OnOtherPlatform m.running
  pub keyed :
      (platform : String) (r : ActiveRuntime)
      → dict_get m.active platform ≡ some r
      → r.account.platform ≡ platform

module _ (relative : Root → String → Option String) where
  -- The one store comes from the other by calls of the registry.
  pub Reaches : Store → Store → Type 0
  Reaches s t = (calls : List (ℕ × Calls.Call)) × (Calls.run relative s calls ≡ t)

  pub Reaches-refl : (s : Store) → Reaches s s
  unfolding Reaches
  Reaches-refl s = ([], unfold Calls.run in refl)

  run-append :
      (s : Store) (xs ys : List (ℕ × Calls.Call))
      → Calls.run relative s (xs ++ ys) ≡ Calls.run relative (Calls.run relative s xs) ys
  unfolding Calls.run
  run-append s [] ys = refl
  run-append s ((now, c) ∷ xs) ys = run-append (Calls.step relative s now c) xs ys

  pub Reaches-trans : (s t u : Store) → Reaches s t → Reaches t u → Reaches s u
  unfolding Reaches
  Reaches-trans s t u (xs, p) (ys, q) =
      (xs ++ ys, run-append s xs ys ∙ ap (λ x. Calls.run relative x ys) p ∙ q)

  pub step-Reaches :
      (s : Store) (now : ℕ) (c : Calls.Call) → Reaches s (Calls.step relative s now c)
  unfolding Reaches
  step-Reaches s now c = ((now, c) ∷ [], unfold Calls.run in refl)

  pub Reaches-IsWellFormed :
      (s t : Store)
      → Reaches s t
      → IsWellFormed s.registry.accounts
      → IsWellFormed t.registry.accounts
  unfolding Reaches
  Reaches-IsWellFormed s t (calls, e) w =
      subst (λ (x : Store). IsWellFormed x.registry.accounts) e
        (run-IsWellFormed relative s calls w)

  -- A manager that came from a registry, which is well-formed.
  pub record IsSound (base : Store) (m : Manager) : Type 0 where
    pub reached : Reaches base m.accounts
    pub slotted : IsSlotted m

  -- A call of the registry concerns no slot.
  pub with_accounts-IsSound :
      (base s : Store) (m : Manager)
      → Reaches m.accounts s
      → IsSound base m
      → IsSound base (with_accounts s m)
  unfolding with_accounts HasSlot
  with_accounts-IsSound base s m r v = record {
    reached = Reaches-trans base m.accounts s v.reached r;
    slotted = record { slots = v.slotted.slots; alone = v.slotted.alone; keyed = v.slotted.keyed };
  }
