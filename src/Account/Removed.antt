-- ===== src/Account/Removed.antt =====
-- `FinalizeDelete`: which entries and directories it leaves.
use wechatcopilot.Prelude.{
  String, true, false, Option, List, [], ◌∷◌, ◌==◌, ◌≡◌, ◌≢◌, refl, ap, ◌⊎◌, inl, inr, Result, ok,
  err, All, Pairs, In, In-cons, here, there, sym, ◌∙◌, Bool-cases, Result-cases, text_cases,
}
use wechatcopilot.Account.Registry.{Account, Store, Error}
use wechatcopilot.Account.Update.{install, resolve}
use wechatcopilot.Account.Deletion.{
  Root, Removal, without_account, remove_directories, within_roots, finalize_delete,
}

pub without_account-All :
    (P : Account → Type 0) (id : String) (xs : List Account)
    → All P xs
    → All P (without_account id xs)
unfolding without_account
without_account-All P id [] h = tt
without_account-All P id (a ∷ xs) h = elim (Bool-cases (a.id == id)) [
  | inl e ↦ rw e (without_account-All P id xs h.1)
  | inr e ↦ rw e (h.0, without_account-All P id xs h.1)
]

pub without_account-Pairs :
    (R : Account → Account → Type 0) (id : String) (xs : List Account)
    → Pairs R xs
    → Pairs R (without_account id xs)
unfolding without_account
without_account-Pairs R id [] h = tt
without_account-Pairs R id (a ∷ xs) h = elim (Bool-cases (a.id == id)) [
  | inl e ↦ rw e (without_account-Pairs R id xs h.1)
  | inr e ↦ rw e (without_account-All (R a) id xs h.0, without_account-Pairs R id xs h.1)
]

-- The entries that stay are those of other identifiers.
abbrev Others : String → Account → List Account → List Account → Type 0
Others id a xs ys = (In a xs → a.id ≢ id → In a ys) × (In a ys → In a xs × (a.id ≢ id))

drop_head :
    (id : String) (a x : Account) (xs ys : List Account)
    → x.id ≡ id
    → Others id a xs ys
    → Others id a (x ∷ xs) ys
drop_head id a x xs ys e h = (into, λ i. (there (h.1 i).0, (h.1 i).1))
  where
    into : In a (x ∷ xs) → a.id ≢ id → In a ys
    into i n = elim (In-cons i) [
      | inl s ↦ absurd (n (ap (λ (b : Account). b.id) s ∙ e))
      | inr j ↦ h.0 j n
    ]

keep_head :
    (id : String) (a x : Account) (xs ys : List Account)
    → x.id ≢ id
    → Others id a xs ys
    → Others id a (x ∷ xs) (x ∷ ys)
keep_head id a x xs ys e h = (into, back)
  where
    into : In a (x ∷ xs) → a.id ≢ id → In a (x ∷ ys)
    into i n = elim (In-cons i) [ inl s ↦ rw s here | inr j ↦ there (h.0 j n) ]

    back : In a (x ∷ ys) → In a (x ∷ xs) × (a.id ≢ id)
    back i = elim (In-cons i) [
      | inl s ↦ (rw s here, λ f. e (sym (ap (λ (b : Account). b.id) s) ∙ f))
      | inr j ↦ (there (h.1 j).0, (h.1 j).1)
    ]

in_cases :
    (id : String) (x : Account) (xs : List Account) (a : Account)
    → ((x.id == id) ≡ true) × (x.id ≡ id) ⊎ ((x.id == id) ≡ false) × (x.id ≢ id)
    → Others id a xs (without_account id xs)
    → Others id a (x ∷ xs) (without_account id (x ∷ xs))
unfolding without_account
in_cases id x xs a (inl (h, e)) rest = rw h (drop_head id a x xs _ e rest)
in_cases id x xs a (inr (h, e)) rest = rw h (keep_head id a x xs _ e rest)

-- Exactly the entries of other identifiers stay.
pub without_account-In :
    (id : String) (xs : List Account) (a : Account)
    → (In a xs → a.id ≢ id → In a (without_account id xs))
      × (In a (without_account id xs) → In a xs × (a.id ≢ id))
unfolding without_account
without_account-In id [] a = (λ i n. i, λ i. elim i [ ])
without_account-In id (x ∷ xs) a =
    in_cases id x xs a (text_cases x.id id) (without_account-In id xs a)

-- `finalize_delete` leaves the accounts alone, or removes the resolved one.
abbrev pub Removes : Store → Store → Type 0
Removes s t =
    (t.registry.accounts ≡ s.registry.accounts)
    ⊎ ((id : String) × (t.registry.accounts ≡ without_account id s.registry.accounts))

module _ (relative : Root → String → Option String) where
  remove_directories-Removes :
      (s : Store) (a : Account) (r : Removal) → Removes s (remove_directories relative s a r).0
  unfolding remove_directories install
  remove_directories-Removes s a r = elim (Bool-cases r.runtime_removed) [
    | inr e ↦ rw e (inl refl)
    | inl e ↦ rw e (elim (Bool-cases r.state_removed) [
      | inr f ↦ rw f (inl refl)
      | inl f ↦ rw f (elim (Bool-cases r.written) [
        | inl g ↦ rw g (inr (a.id, refl))
        | inr g ↦ rw g (inl refl)
      ])
    ])
  ]

  within_roots-Removes :
      (s : Store) (a : Account) (r : Removal) (targets : Result Error (Unit {0}))
      → Removes s (within_roots relative s a r targets).0
  unfolding within_roots
  within_roots-Removes s a r (err e) = inl refl
  within_roots-Removes s a r (ok _) = remove_directories-Removes s a r

  pub finalize_delete-Removes :
      (s : Store) (value : String) (r : Removal) → Removes s (finalize_delete relative s value r).0
  unfolding finalize_delete
  finalize_delete-Removes s value r = elim (Result-cases (resolve s value)) [
    | inr (e, h) ↦ rw (h, finalize_delete) (inl refl)
    | inl (a, h) ↦
        rw (h, finalize_delete)
          (elim (Bool-cases a.deleting) [
            | inr d ↦ simp d (inl refl)
            | inl d ↦ simp d (within_roots-Removes s a r _)
          ])
  ]
