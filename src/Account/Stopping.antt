-- ===== src/Account/Stopping.antt =====
-- What `Deactivate` of internal/account/store.go stops.
use wechatcopilot.Prelude.{
  ℕ, String, true, false, ◌||◌, List, [], ◌∷◌, ◌==◌, ◌≡◌, refl, sym, ◌∙◌, ap, inl, inr, Result, ok,
  err, All, All-of, All-at, In, map, arith, eq_iff, Bool-cases, Result-cases, text_cases,
}
use wechatcopilot.Account.Registry.{Account, Store, Error}
use wechatcopilot.Account.Update.{install, find_account, resolve, deactivate, stop_entry}
use wechatcopilot.Account.Keys.{IsWellFormed, IsQuiet}
use wechatcopilot.Account.Found.{resolve-own}
use wechatcopilot.Account.Loops.{deactivated, deactivate_loop-map}
use wechatcopilot.Account.Preserved.{resolve-In}

-- No entry of this identifier is active.
abbrev pub IsIdle : String → List Account → Type 0
IsIdle id xs = All (λ (a : Account). a.id ≡ id → a.active ≡ false) xs

-- The stopped entries, where the identifier is one entry's only.
deactivated-IsIdle :
    (now : ℕ) (id : String) (target : Account) (xs : List Account)
    → All (λ a. a.id ≡ id → a ≡ target) xs
    → IsIdle id (map (deactivated now target.id) xs)
unfolding stop_entry
deactivated-IsIdle now id target [] h = tt
deactivated-IsIdle now id target (a ∷ xs) h = (
  elim (text_cases a.id target.id) [
    | inl (b, _) ↦ rw b (λ _. refl)
    | inr (b, n) ↦ rw b (λ e. absurd (n (ap (λ (x : Account). x.id) (h.0 e))))
  ],
  deactivated-IsIdle now id target xs h.1,
)

missing-IsIdle :
    (id : String) (xs : List Account) (e : Error) → find_account id xs ≡ err e → IsIdle id xs
unfolding find_account
missing-IsIdle id [] e h = tt
missing-IsIdle id (a ∷ xs) e h = elim (Bool-cases (a.id == id || a.alias == id)) [
  | inl b ↦ absurd (found (rw b at h))
  | inr b ↦ (λ i. absurd (other b i), missing-IsIdle id xs e (rw b at h))
]
  where
    found : ok a ≡ err e → ⊥
    found q = cc

    other : (a.id == id || a.alias == id) ≡ false → a.id ≡ id → ⊥
    other b i = ground (arith, eq_iff a.id id)

-- In a well-formed registry no entry of the identifier is active when `Deactivate` has returned, whatever it returns,
-- if the registry file can be written.
pub deactivate-IsIdle :
    (s : Store) (id : String) (now : ℕ)
    → IsWellFormed s.registry.accounts
    → IsIdle id (deactivate s id now true).0.registry.accounts
unfolding deactivate install
deactivate-IsIdle s id now w = elim (Result-cases (resolve s id)) [
  | inr (e, h) ↦ rw (h, deactivate) (missing-IsIdle id s.registry.accounts e (unfold resolve in h))
  | inl (a, h) ↦
      let i = resolve-In s id a h in
      rw (h, deactivate)
        (elim (Bool-cases a.deleting) [
          | inl d ↦ simp d (
              All-of (λ b. b.id ≡ id → b.active ≡ false) s.registry.accounts
                (λ b j e.
                  ap (λ (x : Account). x.active) (one a h b j e) ∙ (All-at IsQuiet i w.quiet d).0))
          | inr d ↦ simp d (
              rw (deactivate_loop-map now a.id s.registry.accounts a) (
                deactivated-IsIdle now id a s.registry.accounts
                  (All-of (λ b. b.id ≡ id → b ≡ a) s.registry.accounts (one a h))))
        ])
]
  where
    ok_inj : (a b : Account) → ◌≡◌ {A = Result Error Account} (ok a) (ok b) → a ≡ b
    ok_inj a b q = cc

    one :
        (a : Account)
        → resolve s id ≡ ok a
        → (b : Account) → In b s.registry.accounts
        → b.id ≡ id
        → b ≡ a
    one a h b j e = ok_inj b a (sym (resolve-own s b w j).0 ∙ ap (resolve s) e ∙ h)
