-- ===== src/Account/Slots.antt =====
-- At most one account is active on each platform.
use wechatcopilot.Prelude.{
  ℕ, String, Bool, true, false, Option, some, List, [], ◌∷◌, ◌==◌, ◌≡◌, ◌≢◌, refl, sym, ◌⊎◌, inl,
  inr, All, All-of, In, Pairs, map, AllPairs-map, Pairs-along, Pairs-append, subst, arith, eq_iff,
  Bool-cases, Result-cases, ◌∙◌, ap, text_cases,
}
use wechatcopilot.Driver.{Status}
use wechatcopilot.Account.Registry.{Account, Store}
use wechatcopilot.Account.Update.{install, resolve, activate, stop_entry, start_entry, set_status}
use wechatcopilot.Account.Deletion.{Root, mark_entry, failure_entry}
use wechatcopilot.Account.Keys.{Apart, IsWellFormed}
use wechatcopilot.Account.Preserved.{
  Grows, update_status-Grows, record_delete_failure-Grows, deactivate-Grows, begin_delete-Grows,
  activate-entries, resolve-In,
}
use wechatcopilot.Account.Found.{same_id_same, resolve-own}
use wechatcopilot.Account.Creation.{Adds, add-Adds}
use wechatcopilot.Account.Removed.{Removes, finalize_delete-Removes, without_account-Pairs}
use wechatcopilot.Account.Loops.{activated, deactivated}
use wechatcopilot.Account.Calls.{
  Call, adds, activates, deactivates, reports, begins_delete, records_failure, finishes_delete,
  step,
}

-- The two are not both active on one platform.
abbrev pub AreExclusive : Account → Account → Type 0
AreExclusive a b = a.active ≡ true → b.active ≡ true → a.platform ≢ b.platform

abbrev pub HasOneActive : Store → Type 0
HasOneActive s = Pairs AreExclusive s.registry.accounts

-- The entry stays on its platform and is not activated.
record Calms (a b : Account) : Type 0 where
  platform_kept : a.platform ≡ b.platform
  active_before : b.active ≡ true → a.active ≡ true

Calms-refl : (a : Account) → Calms a a
Calms-refl a = record { platform_kept = refl; active_before = λ h. h }

AreExclusive-along :
    (a b c d : Account) → Calms a c → Calms b d → AreExclusive a b → AreExclusive c d
AreExclusive-along a b c d k l h p q e =
    h (k.active_before p) (l.active_before q) (k.platform_kept ∙ e ∙ sym l.platform_kept)

Grows-HasOneActive : (s t : Store) → Grows Calms s t → HasOneActive s → HasOneActive t
Grows-HasOneActive s t g h =
    Pairs-along Calms AreExclusive AreExclusive s.registry.accounts t.registry.accounts
      AreExclusive-along g h

stop_entry-Calms : (now : ℕ) (a : Account) → Calms a (stop_entry now a)
unfolding stop_entry
stop_entry-Calms now a = record { platform_kept = refl; active_before = λ h. cc }

deactivated-Calms : (now : ℕ) (id : String) (a : Account) → Calms a (deactivated now id a)
deactivated-Calms now id a = elim (Bool-cases (a.id == id)) [
  | inl h ↦ simp h (stop_entry-Calms now a)
  | inr h ↦ simp h (Calms-refl a)
]

set_status-Calms : (status : Status) (now : ℕ) (a : Account) → Calms a (set_status status now a)
unfolding set_status
set_status-Calms status now a = record { platform_kept = refl; active_before = λ h. h }

failure_entry-Calms : (m : String) (now : ℕ) (a : Account) → Calms a (failure_entry m now a)
unfolding failure_entry
failure_entry-Calms m now a = record { platform_kept = refl; active_before = λ h. h }

mark_entry-Calms : (now : ℕ) (a : Account) → Calms a (mark_entry now a)
unfolding mark_entry
mark_entry-Calms now a = record { platform_kept = refl; active_before = λ h. cc }

-- What activation makes of an entry: active exactly if it is the target, or it is active on another
-- platform.
activated_cases :
    (now : ℕ) (target a : Account)
    → (activated now target.id target.platform a).active ≡ true
    → (a.id ≡ target.id) ⊎ ((a.id ≢ target.id) × (a.active ≡ true) × (a.platform ≢ target.platform))
unfolding start_entry stop_entry
activated_cases now target a h = elim (text_cases a.id target.id) [
  | inl (e, p) ↦ inl p
  | inr (e, n) ↦ inr (n, ground arith, λ q. ground (arith, eq_iff a.platform target.platform))
]

activated-platform :
    (now : ℕ) (target a : Account)
    → (activated now target.id target.platform a).platform ≡ a.platform
unfolding start_entry stop_entry
activated-platform now target a = ground arith

-- An entry and what activation makes of it, in a list where identifiers are unique.
record IsActivated (now : ℕ) (target a b : Account) : Type 0 where
  result : b ≡ activated now target.id target.platform a
  home : a.id ≡ target.id → a.platform ≡ target.platform

AreExclusive-activated :
    (now : ℕ) (target a b : Account)
    → Apart a b × AreExclusive a b
    → (a.id ≡ target.id → a.platform ≡ target.platform)
    → (b.id ≡ target.id → b.platform ≡ target.platform)
    → AreExclusive
        (activated now target.id target.platform a)
        (activated now target.id target.platform b)
AreExclusive-activated now target a b (p, x) ha hb pa pb e =
    go (activated_cases now target a pa) (activated_cases now target b pb)
  where
    same : a.platform ≡ b.platform
    same = sym (activated-platform now target a) ∙ e ∙ activated-platform now target b

    go :
        (a.id ≡ target.id)
          ⊎ ((a.id ≢ target.id) × (a.active ≡ true) × (a.platform ≢ target.platform))
        → (b.id ≡ target.id)
          ⊎ ((b.id ≢ target.id) × (b.active ≡ true) × (b.platform ≢ target.platform))
        → ⊥
    go (inl i) (inl j) = p.ids (i ∙ sym j)
    go (inl i) (inr (_, _, n)) = n (sym same ∙ ha i)
    go (inr (_, _, n)) (inl j) = n (same ∙ hb j)
    go (inr (_, c, _)) (inr (_, d, _)) = x c d same

AllPairs-both :
    (P Q : Account → Account → Type 0) (xs : List Account)
    → Pairs P xs
    → Pairs Q xs
    → Pairs (λ a b. P a b × Q a b) xs
AllPairs-both P Q [] p q = tt
AllPairs-both P Q (x ∷ xs) p q = (both xs p.0 q.0, AllPairs-both P Q xs p.1 q.1)
  where
    both : (ys : List Account) → All (P x) ys → All (Q x) ys → All (λ b. P x b × Q x b) ys
    both [] h k = tt
    both (y ∷ ys) h k = ((h.0, k.0), both ys h.1 k.1)

activation-HasOneActive :
    (s : Store) (target : Account) (now : ℕ)
    → IsWellFormed s.registry.accounts
    → In target s.registry.accounts
    → HasOneActive s
    → Pairs AreExclusive (map (activated now target.id target.platform) s.registry.accounts)
activation-HasOneActive s target now w i h =
    Pairs-along (IsActivated now target) (λ a b. Apart a b × AreExclusive a b) AreExclusive
      s.registry.accounts _
      (λ a b c d k l both.
        subst (λ x. AreExclusive x d) (sym k.result)
          (subst (λ x. AreExclusive (activated now target.id target.platform a) x) (sym l.result)
            (AreExclusive-activated now target a b both k.home l.home)))
      (AllPairs-map (IsActivated now target) s.registry.accounts
        (activated now target.id target.platform)
        (All-of (λ a. IsActivated now target a (activated now target.id target.platform a))
          s.registry.accounts
          (λ a j. record {
            result = refl;
            home = λ e.
                ap (λ (x : Account). x.platform)
                  (same_id_same s.registry.accounts a target w.distinct j i e);
          })))
      (AllPairs-both Apart AreExclusive s.registry.accounts w.distinct h)

activate-HasOneActive :
    (s : Store) (value : String) (now : ℕ) (written : Bool)
    → IsWellFormed s.registry.accounts
    → HasOneActive s
    → HasOneActive (activate s value now written).0
unfolding activate install
activate-HasOneActive s value now written w h = elim (Result-cases (resolve s value)) [
  | inr (e, r) ↦ rw (r, activate) h
  | inl (target, r) ↦
      rw (r, activate)
        (elim (Bool-cases target.deleting) [
          | inl d ↦ simp d h
          | inr d ↦ simp d (elim (Bool-cases written) [
            | inr f ↦ rw f h
            | inl f ↦
                let i = resolve-In s value target r in
                rw (f, activate-entries s target now w i)
                  (activation-HasOneActive s target now w i h)
          ])
        ])
]

Adds-HasOneActive : (s t : Store) → Adds s t → HasOneActive s → HasOneActive t
Adds-HasOneActive s t (inl e) h = subst (Pairs AreExclusive) (sym e) h
Adds-HasOneActive s t (inr (a, new, e)) h = subst (Pairs AreExclusive) (sym e) (
    Pairs-append AreExclusive s.registry.accounts a h (
      All-of (λ b. AreExclusive b a) s.registry.accounts
        (λ b i p q. absurd (silent new.inactive q))))
  where
    silent : {x : Bool} → x ≡ false → x ≡ true → ⊥
    silent p q = cc

Removes-HasOneActive : (s t : Store) → Removes s t → HasOneActive s → HasOneActive t
Removes-HasOneActive s t (inl e) h = subst (Pairs AreExclusive) (sym e) h
Removes-HasOneActive s t (inr (id, e)) h =
    subst (Pairs AreExclusive) (sym e) (without_account-Pairs AreExclusive id s.registry.accounts h)

module _ (relative : Root → String → Option String) where
  -- In a well-formed registry where no two accounts of one platform are active, every call, failing
  -- or not, leaves at most one account active on each platform.
  pub step-HasOneActive :
      (s : Store) (now : ℕ) (c : Call)
      → IsWellFormed s.registry.accounts
      → HasOneActive s
      → HasOneActive (step relative s now c)
  unfolding step
  step-HasOneActive s now (adds c alias platform) w h =
      Adds-HasOneActive s (step relative s now (adds c alias platform))
        (add-Adds s c alias platform now) h
  step-HasOneActive s now (activates value written) w h =
      activate-HasOneActive s value now written w h
  step-HasOneActive s now (deactivates value written) w h =
      Grows-HasOneActive s (step relative s now (deactivates value written))
        (deactivate-Grows Calms Calms-refl s value now written (deactivated-Calms now)) h
  step-HasOneActive s now (reports id status written) w h =
      Grows-HasOneActive s (step relative s now (reports id status written))
        (update_status-Grows Calms Calms-refl s id status now written
          (λ a _. set_status-Calms status now a))
        h
  step-HasOneActive s now (begins_delete value written) w h =
      Grows-HasOneActive s (step relative s now (begins_delete value written))
        (begin_delete-Grows Calms Calms-refl s value now written (mark_entry-Calms now)) h
  step-HasOneActive s now (records_failure id failure written) w h =
      Grows-HasOneActive s (step relative s now (records_failure id failure written))
        (record_delete_failure-Grows Calms Calms-refl s id failure now written
          (λ m. failure_entry-Calms m now))
        h
  step-HasOneActive s now (finishes_delete value r) w h =
      Removes-HasOneActive s (step relative s now (finishes_delete value r))
        (finalize_delete-Removes relative s value r) h

-- In a well-formed registry whose file can be written, activating an account that is an entry of it and is not being
-- deleted installs and saves the registry in which it is started, the active accounts of its platform are stopped, and
-- no other entry is changed; the account directories stay as they are.
pub activate-starts :
    (s : Store) (target : Account) (now : ℕ)
    → IsWellFormed s.registry.accounts
    → In target s.registry.accounts
    → target.deleting ≡ false
    → let t = (activate s target.id now true).0 in
      (t.registry.accounts ≡ map (activated now target.id target.platform) s.registry.accounts)
      × (t.saved ≡ some t.registry)
      × (t.account_dirs ≡ s.account_dirs)
unfolding activate install
activate-starts s target now w i idle =
    let found = (resolve-own s target w i).0 in
    (
      rw (found, activate) (simp idle (activate-entries s target now w i)),
      rw (found, activate) (simp idle refl),
      rw (found, activate) (simp idle refl),
    )
