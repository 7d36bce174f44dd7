-- ===== src/Account/Durable.antt =====
-- The registry in memory and its file change together, or not at all.
use wechatcopilot.Prelude.{
  ℕ, String, Bool, true, false, not, ◌||◌, Option, none, some, List, ◌≡◌, refl, ◌⊎◌, inl, inr,
  Result, ok, err, Bool-cases, Result-cases, contains,
}
use wechatcopilot.Driver.{Platform}
use wechatcopilot.Account.Names.{matches_alias}
use wechatcopilot.Account.Registry.{Account, Registry, Store, Error, known_platform}
use wechatcopilot.Account.Update.{
  install, install_loop, resolve, activate, deactivate, update_status,
}
use wechatcopilot.Account.Deletion.{
  Root, Removal, begin_delete, mark_account, record_delete_failure, remove_directories,
  within_roots, finalize_delete,
}
use wechatcopilot.Account.Add.{
  Chance, next_account_id, roll_back, undo_create, create, create_named, admit, add,
}
use wechatcopilot.Account.Calls.{
  Call, adds, activates, deactivates, reports, begins_delete, records_failure, finishes_delete,
  step,
}

-- A call leaves the registry and its file as they were, or the file holds the new registry.
abbrev pub IsAtomic : Store → Store → Type 0
IsAtomic s t = ((t.registry ≡ s.registry) × (t.saved ≡ s.saved)) ⊎ (t.saved ≡ some t.registry)

unchanged : (s : Store) → IsAtomic s s
unchanged s = inl (refl, refl)

install-IsAtomic :
    {A : Type 0} (written : Bool) (next : Registry) (s : Store) (a : A)
    → IsAtomic s (install written next s a).0
unfolding install
install-IsAtomic true next s a = inr refl
install-IsAtomic false next s a = unchanged s

install_loop-IsAtomic :
    (written : Bool) (s : Store) (r : Result Error (List Account))
    → IsAtomic s (install_loop written s r).0
unfolding install_loop
install_loop-IsAtomic written s (ok ys) = install-IsAtomic written _ s tt
install_loop-IsAtomic written s (err e) = unchanged s

activate-IsAtomic :
    (s : Store) (value : String) (now : ℕ) (written : Bool)
    → IsAtomic s (activate s value now written).0
unfolding activate
activate-IsAtomic s value now written = elim (Result-cases (resolve s value)) [
  | inr (e, h) ↦ rw (h, activate) (unchanged s)
  | inl (a, h) ↦
      rw (h, activate)
        (elim (Bool-cases a.deleting) [
          | inl d ↦ simp d (unchanged s)
          | inr d ↦ simp d (install-IsAtomic written _ s _)
        ])
]

deactivate-IsAtomic :
    (s : Store) (value : String) (now : ℕ) (written : Bool)
    → IsAtomic s (deactivate s value now written).0
unfolding deactivate
deactivate-IsAtomic s value now written = elim (Result-cases (resolve s value)) [
  | inr (e, h) ↦ rw (h, deactivate) (unchanged s)
  | inl (a, h) ↦
      rw (h, deactivate)
        (elim (Bool-cases a.deleting) [
          | inl d ↦ simp d (unchanged s)
          | inr d ↦ simp d (install-IsAtomic written _ s _)
        ])
]

mark_account-IsAtomic :
    (s : Store) (now : ℕ) (written : Bool) (r : Result Error (List Account × Account))
    → IsAtomic s (mark_account s now written r).0
unfolding mark_account
mark_account-IsAtomic s now written (ok (ys, a)) = install-IsAtomic written _ s a
mark_account-IsAtomic s now written (err e) = unchanged s

begin_delete-IsAtomic :
    (s : Store) (value : String) (now : ℕ) (written : Bool)
    → IsAtomic s (begin_delete s value now written).0
unfolding begin_delete
begin_delete-IsAtomic s value now written = elim (Result-cases (resolve s value)) [
  | inr (e, h) ↦ rw (h, begin_delete) (unchanged s)
  | inl (a, h) ↦
      rw (h, begin_delete)
        (elim (Bool-cases a.active) [
          | inl d ↦ simp d (unchanged s)
          | inr d ↦ simp d (elim (Bool-cases a.deleting) [
            | inl m ↦ simp m (unchanged s)
            | inr m ↦ simp m (mark_account-IsAtomic s now written _)
          ])
        ])
]

record_delete_failure-IsAtomic :
    (s : Store) (id : String) (failure : Option String) (now : ℕ) (written : Bool)
    → IsAtomic s (record_delete_failure s id failure now written).0
unfolding record_delete_failure
record_delete_failure-IsAtomic s id none now written = unchanged s
record_delete_failure-IsAtomic s id (some f) now written = install_loop-IsAtomic written s _

roll_back-kept :
    (removed : Bool) (id : String) (s : Store)
    → ((roll_back removed id s).registry ≡ s.registry) × ((roll_back removed id s).saved ≡ s.saved)
unfolding roll_back
roll_back-kept true id s = (refl, refl)
roll_back-kept false id s = (refl, refl)

create-IsAtomic : (s : Store) (c : Chance) (a : Account) → IsAtomic s (create s c a).0
unfolding create undo_create install
create-IsAtomic s c a = elim (Bool-cases (not c.dir_made || contains a.id s.account_dirs)) [
  | inl e ↦ rw e (unchanged s)
  | inr e ↦ rw e (elim (Bool-cases c.profile_made) [
    | inr p ↦ rw p (inl (roll_back-kept _ _ _))
    | inl p ↦ rw p (elim (Bool-cases c.written) [
      | inl w ↦ rw w (inr refl)
      | inr w ↦ rw w (inl (roll_back-kept _ _ _))
    ])
  ])
]

admit-IsAtomic :
    (s : Store) (c : Chance) (alias : String) (platform : Platform) (now : ℕ)
    (checked : Result Error (Unit {0}))
    → IsAtomic s (admit s c alias platform now checked).0
unfolding admit create_named
admit-IsAtomic s c alias platform now (err e) = unchanged s
admit-IsAtomic s c alias platform now (ok _) =
    elim (Result-cases (next_account_id 128 s c alias 0)) [
      | inl (id, h) ↦ rw (h, create_named) (create-IsAtomic s c _)
      | inr (e, h) ↦ rw (h, create_named) (unchanged s)
    ]

add-IsAtomic :
    (s : Store) (c : Chance) (alias : String) (platform : Platform) (now : ℕ)
    → IsAtomic s (add s c alias platform now).0
unfolding add
add-IsAtomic s c alias platform now = elim (Bool-cases (matches_alias alias)) [
  | inr m ↦ rw m (unchanged s)
  | inl m ↦ rw m (elim (Bool-cases (known_platform platform)) [
    | inr p ↦ rw p (unchanged s)
    | inl p ↦ rw p (admit-IsAtomic s c alias platform now _)
  ])
]

module _ (relative : Root → String → Option String) where
  remove_directories-IsAtomic :
      (s : Store) (a : Account) (r : Removal) → IsAtomic s (remove_directories relative s a r).0
  unfolding remove_directories install
  remove_directories-IsAtomic s a r = elim (Bool-cases r.runtime_removed) [
    | inr e ↦ rw e (unchanged s)
    | inl e ↦ rw e (elim (Bool-cases r.state_removed) [
      | inr f ↦ rw f (inl (refl, refl))
      | inl f ↦ rw f (elim (Bool-cases r.written) [
        | inl g ↦ rw g (inr refl)
        | inr g ↦ rw g (inl (refl, refl))
      ])
    ])
  ]

  within_roots-IsAtomic :
      (s : Store) (a : Account) (r : Removal) (targets : Result Error (Unit {0}))
      → IsAtomic s (within_roots relative s a r targets).0
  unfolding within_roots
  within_roots-IsAtomic s a r (err e) = unchanged s
  within_roots-IsAtomic s a r (ok _) = remove_directories-IsAtomic s a r

  finalize_delete-IsAtomic :
      (s : Store) (value : String) (r : Removal) → IsAtomic s (finalize_delete relative s value r).0
  unfolding finalize_delete
  finalize_delete-IsAtomic s value r = elim (Result-cases (resolve s value)) [
    | inr (e, h) ↦ rw (h, finalize_delete) (unchanged s)
    | inl (a, h) ↦
        rw (h, finalize_delete)
          (elim (Bool-cases a.deleting) [
            | inr d ↦ simp d (unchanged s)
            | inl d ↦ simp d (within_roots-IsAtomic s a r _)
          ])
  ]

  -- Every call leaves the registry and its file as they were, or ends with the file holding exactly
  -- the registry in memory, wherever the system makes it fail.
  pub step-IsAtomic : (s : Store) (now : ℕ) (c : Call) → IsAtomic s (step relative s now c)
  unfolding step
  step-IsAtomic s now (adds c alias platform) = add-IsAtomic s c alias platform now
  step-IsAtomic s now (activates value written) = activate-IsAtomic s value now written
  step-IsAtomic s now (deactivates value written) = deactivate-IsAtomic s value now written
  step-IsAtomic s now (reports id status written) =
      unfold update_status in install_loop-IsAtomic written s _
  step-IsAtomic s now (begins_delete value written) = begin_delete-IsAtomic s value now written
  step-IsAtomic s now (records_failure id failure written) =
      record_delete_failure-IsAtomic s id failure now written
  step-IsAtomic s now (finishes_delete value r) = finalize_delete-IsAtomic s value r
