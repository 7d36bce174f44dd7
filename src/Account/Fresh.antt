-- ===== src/Account/Fresh.antt =====
-- `nextAccountIDLocked`: what it hands out is free, and a free identifier that is drawn is found.
use wechatcopilot.Prelude.{
  ℕ, zero, suc, String, true, false, some, ◌==◌, ◌≡◌, ◌≢◌, refl, ap, subst, ◌∙◌, inl, inr, ok, err,
  contains, arith, Option-cases, ◌<◌, ◌+◌,
}
use native.Mathlib.Nat.{zero-add}
use wechatcopilot.Account.Names.{is_id}
use wechatcopilot.Account.Registry.{Store, Error}
use wechatcopilot.Account.Add.{Chance, is_available, try_id, next_account_id}

-- An identifier that `nextAccountIDLocked` may hand out.
pub record IsFree (s : Store) (alias id : String) : Type 0 where
  pub form : is_id id ≡ true
  pub other : (id == alias) ≡ false
  pub available : is_available id s.registry.accounts ≡ true
  pub no_dir : contains id s.account_dirs ≡ false

try_id-IsFree :
    (s : Store) (c : Chance) (alias id id' : String)
    → try_id s c alias id ≡ some (ok id')
    → (id ≡ id') × IsFree s alias id'
unfolding try_id
try_id-IsFree s c alias id id' h = let e : id ≡ id' = ground arith in (e, rw (← e) (ground arith))

-- Whatever is drawn, an identifier that is handed out is free.
pub next_account_id-IsFree :
    (rounds : ℕ) (s : Store) (c : Chance) (alias : String) (attempt : ℕ) (id : String)
    → next_account_id rounds s c alias attempt ≡ ok id
    → IsFree s alias id
unfolding next_account_id
next_account_id-IsFree zero s c alias attempt id h = cc
next_account_id-IsFree (suc rounds) s c alias attempt id h =
    elim (Option-cases (try_id s c alias (c.drawn attempt))) [
      | inl e ↦
          next_account_id-IsFree rounds s c alias (suc attempt) id (rw (e, next_account_id) at h)
      | inr (r, e) ↦ (try_id-IsFree s c alias _ id (e ∙ ap some (rw (e, next_account_id) at h))).1
    ]

-- A round settles the search, or goes on; without failing `Lstat` calls it never ends it.
try_id-never_err :
    (s : Store) (c : Chance) (alias id : String) (e : Error)
    → c.lstat_fails id ≡ false
    → try_id s c alias id ≢ some (err e)
unfolding try_id
try_id-never_err s c alias id e no_error h = ground arith

try_id-hit :
    (s : Store) (c : Chance) (alias id : String)
    → c.lstat_fails id ≡ false
    → IsFree s alias id
    → try_id s c alias id ≡ some (ok id)
unfolding try_id
try_id-hit s c alias id no_error f = rw (f.form, f.other, f.available, no_error, f.no_dir)

-- When the look at the directory of an account fails for no identifier, a free identifier that is drawn within the
-- rounds left ends the search with an identifier.
pub next_account_id-finds :
    (rounds : ℕ) (s : Store) (c : Chance) (alias : String) (attempt k : ℕ)
    → k < rounds
    → IsFree s alias (c.drawn (k + attempt))
    → ((id : String) → c.lstat_fails id ≡ false)
    → (id : String) × (next_account_id rounds s c alias attempt ≡ ok id)
unfolding next_account_id
next_account_id-finds zero s c alias attempt k lt free no_error = absurd (omega arith)
next_account_id-finds (suc rounds) s c alias attempt zero lt free no_error =
    let here = c.drawn attempt in
    (
      here,
      rw (try_id-hit s c alias here (no_error here) (rw zero-add at free), next_account_id) refl,
    )
next_account_id-finds (suc rounds) s c alias attempt (suc k) lt free no_error =
    elim (Option-cases (try_id s c alias (c.drawn attempt))) [
      | inl e ↦
          rw (e, next_account_id)
            (next_account_id-finds rounds s c alias (suc attempt) k (omega arith)
              (subst (λ n. IsFree s alias (c.drawn n)) (omega arith) free) no_error)
      | inr (ok id, e) ↦ (id, rw (e, next_account_id) refl)
      | inr (err x, e) ↦ absurd (try_id-never_err s c alias _ x (no_error _) e)
    ]
