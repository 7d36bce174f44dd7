-- ===== src/Account/Marker.antt =====
-- The deletion marker is one-way: until the deletion is finished no call takes it back.
use wechatcopilot.Prelude.{
  ℕ, String, true, false, Option, List, [], ◌∷◌, ◌≡◌, sym, inl, inr, All, AllPairs, In, In-cons,
  In-snoc, here, there, All-at, subst, ◌∙◌,
}
use wechatcopilot.Account.Registry.{Account, Store}
use wechatcopilot.Account.Deletion.{Root}
use wechatcopilot.Account.Keys.{IsQuiet, IsWellFormed, Evolves, Evolves-refl}
use wechatcopilot.Account.Preserved.{
  Grows, update_status-Grows, record_delete_failure-Grows, deactivate-Grows, begin_delete-Grows,
  activate-Grows,
}
use wechatcopilot.Account.Evolution.{
  deactivated-Evolves, set_status-Evolves, failure_entry-Evolves, mark_entry-Evolves,
}
use wechatcopilot.Account.Creation.{Adds, add-Adds}
use wechatcopilot.Account.Invariant.{activation-Evolves, step-IsWellFormed}
use wechatcopilot.Account.Calls.{
  Call, adds, activates, deactivates, reports, begins_delete, records_failure, finishes_delete,
  step, run,
}

-- An account of that identifier is being deleted; it is inactive.
abbrev pub IsMarked : String → Store → Type 0
IsMarked id s =
    (a : Account) × In a s.registry.accounts
    × (a.id ≡ id)
    × (a.deleting ≡ true)
    × (a.active ≡ false)

-- The call does not finish a deletion.
abbrev pub Unfinished : Call → Type 0
Unfinished (finishes_delete value r) = ⊥
Unfinished c = Unit

In-Evolves :
    (xs ys : List Account) (a : Account)
    → AllPairs Evolves xs ys
    → In a xs
    → (b : Account) × In b ys × Evolves a b
In-Evolves [] ys a g i = elim i [ ]
In-Evolves (x ∷ xs) [] a g i = absurd g
In-Evolves (x ∷ xs) (y ∷ ys) a g i = elim (In-cons i) [
  | inl e ↦ (y, here, subst (λ z. Evolves z y) (sym e) g.0)
  | inr j ↦ let (b, k, v) = In-Evolves xs ys a g.1 j in (b, there k, v)
]

Grows-IsMarked :
    (id : String) (s t : Store)
    → Grows Evolves s t
    → IsWellFormed s.registry.accounts
    → IsMarked id s
    → IsMarked id t
Grows-IsMarked id s t g w (a, i, e, d, _) =
    let (b, j, v) = In-Evolves s.registry.accounts t.registry.accounts a g i in
    let marked = v.marked d in
    (b, j, sym v.same_id ∙ e, marked, (v.still_quiet (All-at IsQuiet i w.quiet) marked).0)

Adds-IsMarked : (id : String) (s t : Store) → Adds s t → IsMarked id s → IsMarked id t
Adds-IsMarked id s t (inl e) (a, i, n, d, q) = (a, subst (In a) (sym e) i, n, d, q)
Adds-IsMarked id s t (inr (z, new, e)) (a, i, n, d, q) =
    (a, subst (In a) (sym e) (In-snoc s.registry.accounts z a i), n, d, q)

module _ (relative : Root → String → Option String) where
  step-IsMarked :
      (id : String) (s : Store) (now : ℕ) (c : Call)
      → Unfinished c
      → IsWellFormed s.registry.accounts
      → IsMarked id s
      → IsMarked id (step relative s now c)
  unfolding step
  step-IsMarked id s now (adds c alias platform) u w m =
      Adds-IsMarked id s (step relative s now (adds c alias platform))
        (add-Adds s c alias platform now) m
  step-IsMarked id s now (activates value written) u w m =
      Grows-IsMarked id s (step relative s now (activates value written))
        (activate-Grows Evolves Evolves-refl s value now written w (activation-Evolves s now w)) w m
  step-IsMarked id s now (deactivates value written) u w m =
      Grows-IsMarked id s (step relative s now (deactivates value written))
        (deactivate-Grows Evolves Evolves-refl s value now written (deactivated-Evolves now)) w m
  step-IsMarked id s now (reports id' status written) u w m =
      Grows-IsMarked id s (step relative s now (reports id' status written))
        (update_status-Grows Evolves Evolves-refl s id' status now written
          (set_status-Evolves status now))
        w m
  step-IsMarked id s now (begins_delete value written) u w m =
      Grows-IsMarked id s (step relative s now (begins_delete value written))
        (begin_delete-Grows Evolves Evolves-refl s value now written (mark_entry-Evolves now)) w m
  step-IsMarked id s now (records_failure id' failure written) u w m =
      Grows-IsMarked id s (step relative s now (records_failure id' failure written))
        (record_delete_failure-Grows Evolves Evolves-refl s id' failure now written
          (λ t. failure_entry-Evolves t now))
        w m
  step-IsMarked id s now (finishes_delete value r) u w m = absurd u

  -- In a well-formed registry an account that is being deleted stays so, and inactive, through every
  -- history of calls that finishes no deletion.
  pub run-IsMarked :
      (id : String) (s : Store) (calls : List (ℕ × Call))
      → All (λ c. Unfinished c.1) calls
      → IsWellFormed s.registry.accounts
      → IsMarked id s
      → IsMarked id (run relative s calls)
  unfolding run
  run-IsMarked id s [] u w m = m
  run-IsMarked id s ((now, c) ∷ rest) u w m =
      run-IsMarked id (step relative s now c) rest u.1 (step-IsWellFormed relative s now c w)
        (step-IsMarked id s now c u.0 w m)
