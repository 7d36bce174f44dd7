-- ===== src/Account/Preserved.antt =====
-- What the calls that work in place do to the accounts, for any relation between an entry and what
-- becomes of it.
use wechatcopilot.Prelude.{
  ℕ, String, Bool, true, false, Option, none, some, List, map, ◌≡◌, ap, inl, inr, Result, ok, err,
  All, AllPairs, AllPairs-refl, AllPairs-map, All-of, In, Bool-cases, Result-cases,
}
use wechatcopilot.Driver.{Status}
use wechatcopilot.Account.Registry.{Account, Registry, Store, Error}
use wechatcopilot.Account.Update.{
  install, install_loop, resolve, activate, activate_loop, deactivate, update_status, set_status,
}
use wechatcopilot.Account.Deletion.{
  failure_entry, mark_entry, begin_delete, mark_account, record_delete_failure,
}
use wechatcopilot.Account.Keys.{IsWellFormed}
use wechatcopilot.Account.Found.{find_account-In, same_id_same, resolve-own}
use wechatcopilot.Account.Loops.{
  activated, activate_loop-map, activate_loop-target, deactivated, deactivate_loop-map,
  activate_loop-target, Into, status_loop-Into, failure_loop-Into, mark_loop-Into, marked_entries,
}

-- The entry that a text resolves to is an entry of the registry.
pub resolve-In :
    (s : Store) (value : String) (a : Account) → resolve s value ≡ ok a → In a s.registry.accounts
unfolding resolve
resolve-In s value a h = find_account-In value s.registry.accounts a h

own_platform :
    (s : Store) (target : Account)
    → IsWellFormed s.registry.accounts
    → In target s.registry.accounts
    → All (λ a. a.id ≡ target.id → a.platform ≡ target.platform) s.registry.accounts
own_platform s target w i =
    All-of (λ a. a.id ≡ target.id → a.platform ≡ target.platform) s.registry.accounts
      (λ a j e.
        ap (λ (x : Account). x.platform)
          (same_id_same s.registry.accounts a target w.distinct j i e))

pub activate-entries :
    (s : Store) (target : Account) (now : ℕ)
    → IsWellFormed s.registry.accounts
    → In target s.registry.accounts
    → (activate_loop now s.registry.accounts target none).0
      ≡ map (activated now target.id target.platform) s.registry.accounts
activate-entries s target now w i =
    activate_loop-map now s.registry.accounts target none (own_platform s target w i)

abbrev pub IsTarget : Account → Result Error (Account × Option Account) → Type 0
IsTarget target (ok (a, previous)) = (a.id ≡ target.id) × (a.platform ≡ target.platform)
IsTarget target (err e) = Unit

-- An activation returns the entry that its argument named.
pub activate-IsTarget :
    (s : Store) (target : Account) (now : ℕ) (written : Bool)
    → IsWellFormed s.registry.accounts
    → In target s.registry.accounts
    → IsTarget target (activate s target.id now written).1
unfolding activate install
activate-IsTarget s target now written w i =
    let found = (resolve-own s target w i).0 in
    rw (found, activate)
      (elim (Bool-cases target.deleting) [
        | inl d ↦ simp d tt
        | inr d ↦ simp d (elim (Bool-cases written) [
          | inr f ↦ rw f tt
          | inl f ↦
              rw f (
                activate_loop-target now s.registry.accounts target none
                  (own_platform s target w i))
        ])
      ])

-- How a call may leave the accounts: each related to what it was, in its place.
abbrev pub Grows : (Account → Account → Type 0) → Store → Store → Type 0
Grows R s t = AllPairs R s.registry.accounts t.registry.accounts

-- A relation between an entry and what becomes of it is kept by a call, if each change of an entry
-- that the call makes is in it.
module _ (R : Account → Account → Type 0) (same : (a : Account) → R a a) where
  Grows-refl : (s : Store) → Grows R s s
  Grows-refl s = AllPairs-refl R s.registry.accounts same

  install-Grows :
      {A : Type 0} (written : Bool) (next : Registry) (s : Store) (a : A)
      → AllPairs R s.registry.accounts next.accounts
      → Grows R s (install written next s a).0
  unfolding install
  install-Grows true next s a h = h
  install-Grows false next s a h = Grows-refl s

  install_loop-Grows :
      (written : Bool) (s : Store) (r : Result Error (List Account))
      → Into R s.registry.accounts r
      → Grows R s (install_loop written s r).0
  unfolding install_loop
  install_loop-Grows written s (ok ys) h =
      install-Grows written (record s.registry { accounts = ys }) s tt h
  install_loop-Grows written s (err e) h = Grows-refl s

  pub update_status-Grows :
      (s : Store) (id : String) (status : Status) (now : ℕ) (written : Bool)
      → ((a : Account) → a.deleting ≡ false → R a (set_status status now a))
      → Grows R s (update_status s id status now written).0
  unfolding update_status
  update_status-Grows s id status now written change =
      install_loop-Grows written s _
        (status_loop-Into R same now id status s.registry.accounts change)

  pub record_delete_failure-Grows :
      (s : Store) (id : String) (failure : Option String) (now : ℕ) (written : Bool)
      → ((message : String) (a : Account) → R a (failure_entry message now a))
      → Grows R s (record_delete_failure s id failure now written).0
  unfolding record_delete_failure
  record_delete_failure-Grows s id none now written change = Grows-refl s
  record_delete_failure-Grows s id (some failure) now written change =
      install_loop-Grows written s _
        (failure_loop-Into R same now id failure s.registry.accounts (change failure))

  pub deactivate-Grows :
      (s : Store) (value : String) (now : ℕ) (written : Bool)
      → ((id : String) (a : Account) → R a (deactivated now id a))
      → Grows R s (deactivate s value now written).0
  unfolding deactivate
  deactivate-Grows s value now written change = elim (Result-cases (resolve s value)) [
    | inr (e, h) ↦ rw (h, deactivate) (Grows-refl s)
    | inl (a, h) ↦
        rw (h, deactivate)
          (elim (Bool-cases a.deleting) [
            | inl d ↦ simp d (Grows-refl s)
            | inr d ↦ simp d (
                install-Grows written _ s _ (
                  rw (deactivate_loop-map now a.id s.registry.accounts a) (
                    AllPairs-map R s.registry.accounts (deactivated now a.id) (
                      All-of (λ b. R b (deactivated now a.id b)) s.registry.accounts
                        (λ b j. change a.id b)))))
          ])
  ]

  mark_account-Grows :
      (s : Store) (now : ℕ) (written : Bool) (r : Result Error (List Account × Account))
      → Into R s.registry.accounts (marked_entries r)
      → Grows R s (mark_account s now written r).0
  unfolding mark_account
  mark_account-Grows s now written (ok (ys, a)) h =
      install-Grows written (record s.registry { accounts = ys }) s a h
  mark_account-Grows s now written (err e) h = Grows-refl s

  pub begin_delete-Grows :
      (s : Store) (value : String) (now : ℕ) (written : Bool)
      → ((a : Account) → R a (mark_entry now a))
      → Grows R s (begin_delete s value now written).0
  unfolding begin_delete
  begin_delete-Grows s value now written change = elim (Result-cases (resolve s value)) [
    | inr (e, h) ↦ rw (h, begin_delete) (Grows-refl s)
    | inl (a, h) ↦
        rw (h, begin_delete)
          (elim (Bool-cases a.active) [
            | inl d ↦ simp d (Grows-refl s)
            | inr d ↦ simp d (elim (Bool-cases a.deleting) [
              | inl m ↦ simp m (Grows-refl s)
              | inr m ↦ simp m (
                  mark_account-Grows s now written _
                    (mark_loop-Into R same now a.id s.registry.accounts change))
            ])
          ])
  ]

  pub activate-Grows :
      (s : Store) (value : String) (now : ℕ) (written : Bool)
      → IsWellFormed s.registry.accounts
      → ((target : Account)
          → In target s.registry.accounts
          → target.deleting ≡ false
          → All (λ a. R a (activated now target.id target.platform a)) s.registry.accounts)
      → Grows R s (activate s value now written).0
  unfolding activate
  activate-Grows s value now written w change = elim (Result-cases (resolve s value)) [
    | inr (e, h) ↦ rw (h, activate) (Grows-refl s)
    | inl (target, h) ↦
        rw (h, activate)
          (elim (Bool-cases target.deleting) [
            | inl d ↦ simp d (Grows-refl s)
            | inr d ↦
                let i = resolve-In s value target h in
                simp d (
                  install-Grows written _ s _ (
                    rw (activate-entries s target now w i) (
                      AllPairs-map R s.registry.accounts (activated now target.id target.platform)
                        (change target i d))))
          ])
  ]
