-- ===== src/Account/Gone.antt =====
-- What a deletion that succeeds leaves of an account.
use wechatcopilot.Prelude.{
  String, Option, List, [], ◌∷◌, ◌≡◌, ◌≢◌, refl, sym, subst, inl, inr, Result, ok, err, All,
  Bool-cases, Result-cases, text_cases, ◌>>◌,
}
use wechatcopilot.Account.Registry.{Account, Store, Error}
use wechatcopilot.Account.Update.{install, resolve}
use wechatcopilot.Account.Deletion.{
  Root, Removal, remove_dir, without_account, remove_directories, within_roots, deletion_target,
  accounts_root, runtime_root, finalize_account, finalize_delete,
}

-- Neither an entry nor a directory of this identifier is left.
pub record IsGone (id : String) (s : Store) : Type 0 where
  pub entries : All (λ (a : Account). a.id ≢ id) s.registry.accounts
  pub account_dirs : All (λ d. d ≢ id) s.account_dirs
  pub runtime_dirs : All (λ d. d ≢ id) s.runtime_dirs

without_account-others :
    (id : String) (xs : List Account) → All (λ (a : Account). a.id ≢ id) (without_account id xs)
unfolding without_account
without_account-others id [] = tt
without_account-others id (a ∷ xs) = elim (text_cases a.id id) [
  | inl (b, _) ↦ rw b (without_account-others id xs)
  | inr (b, n) ↦ rw b (n, without_account-others id xs)
]

remove_dir-others : (id : String) (xs : List String) → All (λ d. d ≢ id) (remove_dir id xs)
unfolding remove_dir
remove_dir-others id [] = tt
remove_dir-others id (d ∷ xs) = elim (text_cases d id) [
  | inl (b, _) ↦ rw b (remove_dir-others id xs)
  | inr (b, n) ↦ rw b (n, remove_dir-others id xs)
]

-- The outcome of a call, where an answer without an error leaves nothing of the account.
abbrev pub LeavesNothing : String → Store × Result Error Account → Type 0
LeavesNothing id (s, ok a) = IsGone id s × (a.id ≡ id)
LeavesNothing id (s, err e) = Unit

module _ (relative : Root → String → Option String) where
  remove_directories-LeavesNothing :
      (s : Store) (a : Account) (r : Removal)
      → LeavesNothing a.id (remove_directories relative s a r)
  unfolding remove_directories install
  remove_directories-LeavesNothing s a r = elim (Bool-cases r.runtime_removed) [
    | inr h ↦ simp h tt
    | inl h ↦ elim (Bool-cases r.state_removed) [
      | inr k ↦ simp (h, k) tt
      | inl k ↦ elim (Bool-cases r.written) [
        | inr w ↦ simp (h, k, w) tt
        | inl w ↦
            simp (h, k, w)
              (
                record {
                  entries = without_account-others a.id s.registry.accounts;
                  account_dirs = remove_dir-others a.id s.account_dirs;
                  runtime_dirs = remove_dir-others a.id s.runtime_dirs;
                },
                refl,
              )
      ]
    ]
  ]

  within_roots-LeavesNothing :
      (s : Store) (a : Account) (r : Removal) (o : Result Error (Unit {0}))
      → LeavesNothing a.id (within_roots relative s a r o)
  unfolding within_roots
  within_roots-LeavesNothing s a r (err e) = tt
  within_roots-LeavesNothing s a r (ok u) = remove_directories-LeavesNothing s a r

  pub finalize_account-LeavesNothing :
      (s : Store) (a : Account) (r : Removal) → LeavesNothing a.id (finalize_account relative s a r)
  unfolding finalize_account
  finalize_account-LeavesNothing s a r = elim (Bool-cases a.deleting) [
    | inr h ↦ simp h tt
    | inl h ↦ simp h (
        within_roots-LeavesNothing s a r (
          deletion_target relative accounts_root a.id
          >> deletion_target relative runtime_root a.id))
  ]

  -- The answer of `FinalizeDelete` names the account of which nothing is left.
  pub finalize_delete-IsGone :
      (s t : Store) (value : String) (r : Removal) (a : Account)
      → finalize_delete relative s value r ≡ (t, ok a)
      → IsGone a.id t
  unfolding finalize_delete
  finalize_delete-IsGone s t value r a h = elim (Result-cases (resolve s value)) [
    | inl (x, e) ↦ named x (rw (e, finalize_delete) at h) (finalize_account-LeavesNothing s x r)
    | inr (x, e) ↦ absurd (failed x (rw (e, finalize_delete) at h))
  ]
    where
      named :
          (x : Account)
          → finalize_account relative s x r ≡ (t, ok a)
          → LeavesNothing x.id (finalize_account relative s x r)
          → IsGone a.id t
      named x q v =
          let both : IsGone x.id t × (a.id ≡ x.id) = subst (LeavesNothing x.id) q v in
          subst (λ i. IsGone i t) (sym both.1) both.0

      failed : (x : Error) → ◌≡◌ {A = Store × Result Error Account} (s, err x) (t, ok a) → ⊥
      failed x q = cc
