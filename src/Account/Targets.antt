-- ===== src/Account/Targets.antt =====
-- Which account the two phases of a deletion are about.
use wechatcopilot.Prelude.{
  ℕ, String, Bool, true, false, Option, List, [], ◌∷◌, ◌≡◌, refl, subst, inl, inr, Result, ok, err,
  In, here, there, text_cases, Bool-cases, ◌>>=◌,
}
use wechatcopilot.Account.Registry.{Account, Store, Error}
use wechatcopilot.Account.Keys.{IsWellFormed}
use wechatcopilot.Account.Update.{install}
use wechatcopilot.Account.Deletion.{
  Root, Removal, mark_entry, mark_loop, mark_account, begin_delete, finalize_account,
  finalize_delete,
}
use wechatcopilot.Account.Found.{resolve-own}
use wechatcopilot.Account.Gone.{LeavesNothing, finalize_account-LeavesNothing}

-- The answer of the loop is the entry that it has marked.
abbrev Marks : String → Result Error (List Account × Account) → Type 0
Marks id (ok (entries, item)) = (item.id ≡ id) × In item entries
Marks id (err e) = Unit

further-Marks :
    (id : String) (a : Account) (o : Result Error (List Account × Account))
    → Marks id o
    → Marks id (do found ← o; ok (a ∷ found.0, found.1))
further-Marks id a (ok (entries, item)) h = (h.0, there h.1)
further-Marks id a (err e) h = tt

mark_loop-Marks : (now : ℕ) (id : String) (xs : List Account) → Marks id (mark_loop now id xs)
unfolding mark_loop mark_entry
mark_loop-Marks now id [] = tt
mark_loop-Marks now id (a ∷ xs) = elim (text_cases a.id id) [
  | inl (b, e) ↦ rw b (e, here)
  | inr (b, n) ↦ rw b (further-Marks id a (mark_loop now id xs) (mark_loop-Marks now id xs))
]

-- The answer of `BeginDelete` is an entry with the identifier of the account, which is there.
abbrev pub Begins : String → Store × Result Error Account → Type 0
Begins id (t, ok item) = (item.id ≡ id) × In item t.registry.accounts
Begins id (t, err e) = Unit

mark_account-Begins :
    (s : Store) (id : String) (now : ℕ) (written : Bool) (o : Result Error (List Account × Account))
    → Marks id o
    → Begins id (mark_account s now written o)
unfolding mark_account install
mark_account-Begins s id now true (ok (entries, item)) h = h
mark_account-Begins s id now false (ok (entries, item)) h = tt
mark_account-Begins s id now written (err e) h = tt

pub begin_delete-Begins :
    (s : Store) (a : Account) (now : ℕ) (written : Bool)
    → IsWellFormed s.registry.accounts
    → In a s.registry.accounts
    → Begins a.id (begin_delete s a.id now written)
unfolding begin_delete
begin_delete-Begins s a now written w i =
    rw ((resolve-own s a w i).0, begin_delete)
      (elim (Bool-cases a.active) [
        | inl h ↦ simp h tt
        | inr h ↦ elim (Bool-cases a.deleting) [
          | inl k ↦ simp (h, k) (refl, i)
          | inr k ↦
              simp (h, k)
                (mark_account-Begins s a.id now written (mark_loop now a.id s.registry.accounts)
                  (mark_loop-Marks now a.id s.registry.accounts))
        ]
      ])

-- `FinalizeDelete` of an entry by its identifier answers with that identifier.
pub finalize_delete-target :
    (relative : Root → String → Option String) (s t : Store) (item a : Account) (r : Removal)
    → IsWellFormed s.registry.accounts
    → In item s.registry.accounts
    → finalize_delete relative s item.id r ≡ (t, ok a)
    → a.id ≡ item.id
unfolding finalize_delete
finalize_delete-target relative s t item a r w i h =
    let q : finalize_account relative s item r ≡ (t, ok a) =
      rw ((resolve-own s item w i).0, finalize_delete) at h in
    let v : LeavesNothing item.id (t, ok a) =
      subst (LeavesNothing item.id) q (finalize_account-LeavesNothing relative s item r) in
    v.1
