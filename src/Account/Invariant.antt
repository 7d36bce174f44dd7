-- ===== src/Account/Invariant.antt =====
-- The registry stays well-formed through every history of calls, and `Open` establishes it.
use wechatcopilot.Prelude.{
  ℕ, String, false, Option, List, [], ◌∷◌, ◌≡◌, sym, inl, inr, All, All-append, All-of, In,
  Pairs-append, subst, ◌∙◌, ap,
}
use wechatcopilot.Account.Registry.{Account, Store}
use wechatcopilot.Account.Deletion.{Root}
use wechatcopilot.Account.Keys.{
  IsWellNamed, Apart, IsQuiet, IsWellFormed, IsWellFormed-along, Evolves, Evolves-refl,
}
use wechatcopilot.Account.Preserved.{
  update_status-Grows, record_delete_failure-Grows, deactivate-Grows, begin_delete-Grows,
  activate-Grows,
}
use wechatcopilot.Account.Evolution.{
  deactivated-Evolves, activated-Evolves, set_status-Evolves, failure_entry-Evolves,
  mark_entry-Evolves,
}
use wechatcopilot.Account.Found.{same_id_same}
use wechatcopilot.Account.Creation.{Adds, add-Adds}
use wechatcopilot.Account.Removed.{
  Removes, finalize_delete-Removes, without_account-All, without_account-Pairs,
}
use wechatcopilot.Account.Loops.{activated}
use wechatcopilot.Account.Calls.{
  Call, adds, activates, deactivates, reports, begins_delete, records_failure, finishes_delete,
  step, run,
}

Adds-IsWellFormed :
    (s t : Store) → Adds s t → IsWellFormed s.registry.accounts → IsWellFormed t.registry.accounts
Adds-IsWellFormed s t (inl e) w = subst IsWellFormed (sym e) w
Adds-IsWellFormed s t (inr (a, new, e)) w = subst IsWellFormed (sym e) (record {
  named = All-append IsWellNamed s.registry.accounts (a ∷ []) w.named (new.named, tt);
  distinct = Pairs-append Apart s.registry.accounts a w.distinct new.apart;
  quiet =
      All-append IsQuiet s.registry.accounts (a ∷ []) w.quiet
        (λ h. (new.inactive, new.in_state), tt);
})

Removes-IsWellFormed :
    (s t : Store)
    → Removes s t
    → IsWellFormed s.registry.accounts
    → IsWellFormed t.registry.accounts
Removes-IsWellFormed s t (inl e) w = subst IsWellFormed (sym e) w
Removes-IsWellFormed s t (inr (id, e)) w = subst IsWellFormed (sym e) (record {
  named = without_account-All IsWellNamed id s.registry.accounts w.named;
  distinct = without_account-Pairs Apart id s.registry.accounts w.distinct;
  quiet = without_account-All IsQuiet id s.registry.accounts w.quiet;
})

-- The target of an activation is not being deleted, so its start evolves it.
pub activation-Evolves :
    (s : Store) (now : ℕ)
    → IsWellFormed s.registry.accounts
    → (target : Account) → In target s.registry.accounts
    → target.deleting ≡ false
    → All (λ a. Evolves a (activated now target.id target.platform a)) s.registry.accounts
activation-Evolves s now w target i idle =
    All-of (λ a. Evolves a (activated now target.id target.platform a)) s.registry.accounts
      (λ a j. activated-Evolves now target a (λ e.
        ap (λ (x : Account). x.deleting)
          (same_id_same s.registry.accounts a target w.distinct j i e)
        ∙ idle))

module _ (relative : Root → String → Option String) where
  -- Every call, whatever the system answers, keeps the identifiers and aliases of the accounts
  -- well-formed and apart from one another, and the accounts that are being deleted inactive and
  -- stopped.
  pub step-IsWellFormed :
      (s : Store) (now : ℕ) (c : Call)
      → IsWellFormed s.registry.accounts
      → IsWellFormed (step relative s now c).registry.accounts
  unfolding step
  step-IsWellFormed s now (adds c alias platform) w =
      Adds-IsWellFormed s (step relative s now (adds c alias platform))
        (add-Adds s c alias platform now) w
  step-IsWellFormed s now (activates value written) w =
      IsWellFormed-along _ _
        (activate-Grows Evolves Evolves-refl s value now written w (activation-Evolves s now w)) w
  step-IsWellFormed s now (deactivates value written) w =
      IsWellFormed-along _ _
        (deactivate-Grows Evolves Evolves-refl s value now written (deactivated-Evolves now)) w
  step-IsWellFormed s now (reports id status written) w =
      IsWellFormed-along _ _
        (update_status-Grows Evolves Evolves-refl s id status now written
          (set_status-Evolves status now))
        w
  step-IsWellFormed s now (begins_delete value written) w =
      IsWellFormed-along _ _
        (begin_delete-Grows Evolves Evolves-refl s value now written (mark_entry-Evolves now)) w
  step-IsWellFormed s now (records_failure id failure written) w =
      IsWellFormed-along _ _
        (record_delete_failure-Grows Evolves Evolves-refl s id failure now written
          (λ m. failure_entry-Evolves m now))
        w
  step-IsWellFormed s now (finishes_delete value r) w =
      Removes-IsWellFormed s (step relative s now (finishes_delete value r))
        (finalize_delete-Removes relative s value r) w

  -- From a well-formed registry every history of calls, failing ones included, ends in one.
  pub run-IsWellFormed :
      (s : Store) (calls : List (ℕ × Call))
      → IsWellFormed s.registry.accounts
      → IsWellFormed (run relative s calls).registry.accounts
  unfolding run
  run-IsWellFormed s [] w = w
  run-IsWellFormed s ((now, c) ∷ rest) w =
      run-IsWellFormed (step relative s now c) rest (step-IsWellFormed s now c w)
